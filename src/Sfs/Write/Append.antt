-- ===== src/Sfs/Write/Append.antt =====
-- sfs_write at the end of a file of at most ten blocks, again and again, and what sfs_read gives then.
use cs.Base.{
  ℕ, ◌+◌, ◌-◌, ◌*◌, ◌/◌, ◌%◌, ◌≤◌, ◌<◌, ◌≡◌, refl, ap, subst, sym, ◌∙◌, List, ℤ, pos, some, true,
  false, ltb, leb, ◌==◌, ◌&&◌, get_elem?, get_or, length, arith, Bool-cases, inl, inr,
}
use cs.Sfs.State.{Inode, Store}
use cs.Sfs.Block.{Disk, IsReliable, block_size}
use cs.Sfs.Index.{entry, index_of}
use cs.Sfs.Index.Single.{IsUsed}
use cs.Sfs.Read.Content.{file_byte}
use cs.Sfs.Write.{
  set_size, capacity, blocks_needed, grow, after_grow, store_range, write_range, write_inode,
}
use cs.Sfs.Write.Overwrite.{IsWritten, store_range-IsWritten}
use cs.Sfs.Write.Buffer.{overwritten}
use cs.Sfs.Write.RoundTrip.{write_inode-eq, overwritten_inside, file_byte-set_size}
use cs.Sfs.Tables.Count.{count_free}
use cs.Sfs.Write.Grow.{IsGrowable, grow-IsGrown}

-- The blocks of a file of `n` bytes.
abbrev pub blocks_of : ℕ → ℕ
blocks_of n = (n + 511) / 512

blocks_needed_lem :
    (n end : ℕ)
    → n ≤ end
    → end ≤ 10 * block_size
    → blocks_needed n end ≡ blocks_of end - blocks_of n
unfolding blocks_needed
blocks_needed_lem n end le few = ground arith

-- Bytes appended: what was there stays, and the new ones follow.
appended_lem : (n k : ℕ) (bytes : List ℕ) (old : ℕ → ℕ) → k < n → overwritten n bytes old k ≡ old k
appended_lem n k bytes old h =
    let a : (leb n k && ltb k (n + length bytes)) ≡ false = ground arith in
    let b : (leb (n + length bytes) k
          && (k / block_size == (n + length bytes - 1) / block_size)
          && ltb (n / block_size) (k / block_size))
        ≡ false =
      ground arith in
    rw (a, b) refl

module _ (d : Disk) (ok : IsReliable d) where
  write_inode-grow :
      (inode inode' : Inode) (s s' : Store d.File) (bytes : List ℕ) (n m : ℕ)
      → capacity n < n + length bytes
      → blocks_needed n (n + length bytes) ≡ m
      → grow d m inode.stat.st_blocks (inode, s) ≡ some (true, (inode', s'))
      → write_inode d bytes n (pos n) (inode, s) ≡ store_range d bytes n n (inode', s')
  unfolding write_inode write_range after_grow
  write_inode-grow inode inode' s s' bytes n m h e g =
      let a : ltb n n ≡ false = ground arith in
      let c : ltb (capacity n) (n + length bytes) ≡ true = ground arith in rw (a, c, e, g) refl

  -- An inode and the store hold a file of `n` bytes and the blocks for them, which are apart and marked as
  -- taken.
  pub record IsFile (inode : Inode) (n : ℕ) (s : Store d.File) : Type 0 where
    pub size : inode.stat.st_size ≡ pos n
    pub blocks : inode.stat.st_blocks ≡ blocks_of n
    pub growable : IsGrowable d ok inode (blocks_of n) s

  -- The file has the bytes of `old` and then `bytes`.
  pub record IsAppended (inode : Inode) (n : ℕ) (bytes : List ℕ) (s : Store d.File) (inode' : Inode)
      (s' : Store d.File) : Type 0 where
    pub file : IsFile inode' (n + length bytes) s'
    pub kept : (k : ℕ) → k < n → file_byte d ok s'.disk inode' k ≡ file_byte d ok s.disk inode k
    pub new : (j : ℕ) → j < length bytes → file_byte d ok s'.disk inode' (n + j) ≡ get_or bytes j 0
    pub free_left :
        count_free s.disk_blocks + blocks_of n
        ≡ count_free s'.disk_blocks + blocks_of (n + length bytes)

  -- The file with room for the bytes, before they are written.
  record HasRoom (inode : Inode) (n end : ℕ) (s : Store d.File) (inode' : Inode) (s' : Store d.File)
      : Type 0 where
    growable : IsGrowable d ok inode' (blocks_of end) s'
    disk : s'.disk ≡ s.disk
    old : (m : ℕ) → m < blocks_of n → index_of d s.disk inode' m ≡ index_of d s.disk inode m
    size : inode'.stat.st_size ≡ pos n
    blocks : inode'.stat.st_blocks ≡ blocks_of end
    free_left : count_free s.disk_blocks + blocks_of n ≡ count_free s'.disk_blocks + blocks_of end

  make_room :
      (inode : Inode) (s : Store d.File) (bytes : List ℕ) (n : ℕ)
      → IsFile inode n s
      → 0 < length bytes
      → n + length bytes ≤ 10 * block_size
      → blocks_of (n + length bytes) ≤ blocks_of n + count_free s.disk_blocks
      → (inode' : Inode) × (s' : Store d.File) × (write_inode d bytes n (pos n) (inode, s)
          ≡ store_range d bytes n n (inode', s'))
        × HasRoom inode n (n + length bytes) s inode' s'
  make_room inode s bytes n v some_bytes few enough =
      elim (Bool-cases (ltb (capacity n) (n + length bytes))) [
        | inr e ↦
            let same : blocks_of (n + length bytes) ≡ blocks_of n = ground arith in
            (
              inode,
              s,
              write_inode-eq d ok inode s bytes n n (omega arith) (ground arith),
              record {
                growable = subst (λ c. IsGrowable d ok inode c s) (sym same) v.growable;
                disk = refl;
                old = λ m h. refl;
                size = v.size;
                blocks = v.blocks ∙ sym same;
                free_left = omega (arith, same);
              },
            )
        | inl e ↦
            let m = blocks_of (n + length bytes) - blocks_of n in
            let all : m + blocks_of n ≡ blocks_of (n + length bytes) = omega arith in
            let (inode', s', g, r) =
              grow-IsGrown d ok m (blocks_of n) inode s v.growable (omega arith) (omega arith) in
            (
              inode',
              s',
              write_inode-grow inode inode' s s' bytes n m (ground arith)
                  (blocks_needed_lem n (n + length bytes) (omega arith) few)
                  (subst (λ c. grow d m c (inode, s) ≡ some (true, (inode', s'))) (sym v.blocks) g),
              record {
                growable = subst (λ c. IsGrowable d ok inode' c s') all r.growable;
                disk = r.disk;
                old = r.old;
                size = r.size ∙ v.size;
                blocks = omega (arith, r.blocks, v.blocks, all);
                free_left = omega (arith, r.free_left, all);
              },
            )
      ]

  file_byte-same :
      (f : d.File) (inode inode' : Inode) (n k : ℕ)
      → ((m : ℕ) → m < blocks_of n → index_of d f inode' m ≡ index_of d f inode m)
      → k < n
      → file_byte d ok f inode' k ≡ file_byte d ok f inode k
  file_byte-same f inode inode' n k h lt = rw (h (k / block_size) (omega arith)) refl

  IsGrowable-written :
      (inode : Inode) (z : ℤ) (count offset : ℕ) (bytes : List ℕ) (s s' : Store d.File)
      → IsGrowable d ok inode count s
      → IsWritten d ok inode count offset bytes s s'
      → IsGrowable d ok (set_size inode z) count s'
  unfolding index_of
  IsGrowable-written inode z count offset bytes s s' v r = record {
    apart = record {
      few = r.apart.few;
      present = r.apart.present;
      single = r.apart.single;
      double = r.apart.double;
      subs = r.apart.subs;
      distinct = r.apart.distinct;
      ne_single = r.apart.ne_single;
      ne_double = r.apart.ne_double;
      ne_subs = r.apart.ne_subs;
    };
    entries = v.entries;
    covers = omega (arith, v.covers, r.room, ap (length {A = ℕ}) r.taken);
    used = λ m b h e. ap (λ t. get_elem? t b) r.taken ∙ v.used m b h (sym (r.places m h) ∙ e);
    single =
        subst (λ t. IsUsed d ok (record s { disk_blocks = t }) (entry inode 10)) (sym r.taken)
          v.single;
    double =
        subst (λ t. IsUsed d ok (record s { disk_blocks = t }) (entry inode 11)) (sym r.taken)
          v.double;
  }

  pub write_inode-IsAppended :
      (inode : Inode) (s : Store d.File) (bytes : List ℕ) (n : ℕ)
      → IsFile inode n s
      → 0 < length bytes
      → n + length bytes ≤ 10 * block_size
      → blocks_of (n + length bytes) ≤ blocks_of n + count_free s.disk_blocks
      → (inode' : Inode) × (s' : Store d.File) × (write_inode d bytes n (pos n) (inode, s)
          ≡ some (pos (length bytes), (inode', s')))
        × IsAppended inode n bytes s inode' s'
  write_inode-IsAppended inode s bytes n v some_bytes few enough =
      let (inode1, s1, w, r) = make_room inode s bytes n v some_bytes few enough in
      let (s2, w2, q) =
        store_range-IsWritten d ok bytes n n (blocks_of (n + length bytes))
          ((n % 512 + length bytes + 511) / 512 - 1) inode1 s1 r.growable.apart some_bytes
          (omega arith) (omega arith) in
      let z = pos (n + length bytes) in
      (
        set_size inode1 z,
        s2,
        w ∙ w2,
        record {
          file = record {
            size = refl;
            blocks = r.blocks;
            growable =
                IsGrowable-written inode1 z (blocks_of (n + length bytes)) n bytes s1 s2 r.growable
                  q;
          };
          kept = λ k h.
              file_byte-set_size d ok s2.disk inode1 z k
              ∙ q.content k (omega arith)
              ∙ appended_lem n k bytes (file_byte d ok s1.disk inode1) h
              ∙ ap (λ f. file_byte d ok f inode1 k) r.disk
              ∙ file_byte-same s.disk inode inode1 n k r.old h;
          new = λ j h.
              file_byte-set_size d ok s2.disk inode1 z (n + j)
              ∙ q.content (n + j) (omega arith)
              ∙ overwritten_inside bytes (file_byte d ok s1.disk inode1) n j h;
          free_left = omega (arith, r.free_left, ap count_free q.taken);
        },
      )
