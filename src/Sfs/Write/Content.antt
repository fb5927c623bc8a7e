-- ===== src/Sfs/Write/Content.antt =====
-- The bytes of a file after sfs_write has written into the blocks that the file has.
use cs.Base.{
  ℕ, zero, suc, ◌+◌, ◌-◌, ◌*◌, ◌/◌, ◌%◌, ◌≤◌, ◌<◌, ◌≡◌, refl, ◌∙◌, List, pos, some, Bool, true,
  false, ltb, leb, ◌==◌, ◌&&◌, if◌then◌else◌, get_or, take, drop, length, arith, Bool-cases, inl,
  inr, length-take, length-drop, get_or-take, get_or-drop,
}
use cs.Sfs.State.{Inode, Store, max_file_blocks}
use cs.Sfs.Block.{Disk, IsReliable, block_size, size-block_write}
use cs.Sfs.Index.{index_of, get_block_index-pos, write_block}
use cs.Sfs.Read.{to_short}
use cs.Sfs.Read.Content.{file_byte}
use cs.Sfs.Write.{write_back}
use cs.Sfs.Write.Apart.{IsApart, index_of-write, IsApart-write, file_byte-write}

-- Byte `k` lies in one of the `n` blocks from number `start` on.
abbrev pub within : ℕ → ℕ → ℕ → Bool
within start n k = leb (start * block_size) k && ltb k ((start + n) * block_size)

-- The first block written, and then the rest.
within-suc :
    (start n k x y z : ℕ) (buf : List ℕ)
    → x ≡ (
        if within (start + 1) n k
        then get_or (drop block_size buf) (k - (start + 1) * block_size) 0
        else y)
    → y ≡ (if k / block_size == start then get_or (take block_size buf) (k % block_size) 0 else z)
    → x ≡ (if within start (suc n) k then get_or buf (k - start * block_size) 0 else z)
within-suc start n k x y z buf p q = elim (Bool-cases (k / block_size == start)) [
  | inl e ↦
      let a : within (start + 1) n k ≡ false = ground arith in
      let b : within start (suc n) k ≡ true = ground arith in
      let i : k / block_size ≡ start = ground arith in
      let c : k - start * block_size ≡ k % block_size = omega arith in
      let p' : x ≡ y = rw a at p in
      let q' : y ≡ get_or (take block_size buf) (k % block_size) 0 = rw e at q in
      rw (b, c) (p' ∙ q' ∙ get_or-take block_size buf (k % block_size) 0 (omega arith))
  | inr e ↦
      let q' : y ≡ z = rw e at q in
      elim (Bool-cases (within (start + 1) n k)) [
        | inl a ↦
            let b : within start (suc n) k ≡ true = ground arith in
            let c : k - start * block_size ≡ block_size + (k - (start + 1) * block_size) =
              ground arith in
            let p' : x ≡ get_or (drop block_size buf) (k - (start + 1) * block_size) 0 =
              rw a at p in
            rw b (
              p'
              ∙ get_or-drop block_size buf (k - (start + 1) * block_size) (k - start * block_size) 0
                  c)
        | inr a ↦
            let b : within start (suc n) k ≡ false = ground arith in
            let p' : x ≡ y = rw a at p in rw b (p' ∙ q')
      ]
]

pub short-pos : (n : ℕ) → n < max_file_blocks → to_short n ≡ pos n
short-pos n h = ground arith

module _ (d : Disk) (ok : IsReliable d) where
  -- What write_back leaves: the bytes of the buffer in the `n` blocks from `start` on, and all else as it
  -- was.
  pub record IsStored (inode : Inode) (count : ℕ) (s : Store d.File) (start n : ℕ) (buf : List ℕ)
      (s' : Store d.File) : Type 0 where
    pub apart : IsApart d ok s'.disk inode count
    pub taken : s'.disk_blocks ≡ s.disk_blocks
    pub room : ok.size s'.disk ≡ ok.size s.disk
    pub places : (m : ℕ) → m < count → index_of d s'.disk inode m ≡ index_of d s.disk inode m
    pub bytes :
        (k : ℕ)
        → k < count * block_size
        → file_byte d ok s'.disk inode k ≡ (
            if within start n k
            then get_or buf (k - start * block_size) 0
            else file_byte d ok s.disk inode k)

  pub write_back-IsStored :
      (n start count : ℕ) (buf : List ℕ) (inode : Inode) (s : Store d.File)
      → IsApart d ok s.disk inode count
      → start + n ≤ count
      → length buf ≡ n * block_size
      → (s' : Store d.File) × (write_back d n start buf (inode, s) ≡ some s')
        × IsStored inode count s start n buf s'
  unfolding write_back
  write_back-IsStored zero start count buf inode s v h l = (
    s,
    refl,
    record {
      apart = v;
      taken = refl;
      room = refl;
      places = λ m hm. refl;
      bytes = λ k hk. let e : within start 0 k ≡ false = ground arith in rw e refl;
    },
  )
  write_back-IsStored (suc n) start count buf inode s v h l =
      let lt : start < count = omega arith in
      let (b, e, has) = v.present start lt in
      let one = take block_size buf in
      let full : length one ≡ block_size = omega (arith, length-take block_size buf) in
      let s1 = write_block d s (pos b) one in
      let (s', w, r) =
        write_back-IsStored n (start + 1) count (drop block_size buf) inode s1
          (IsApart-write d ok s.disk inode count v start b one lt e full) (omega arith)
          (omega (arith, length-drop block_size buf)) in
      (
        s',
        rw (short-pos start (omega (arith, v.few)), get_block_index-pos d s.disk inode start, e) w,
        record {
          apart = r.apart;
          taken = r.taken;
          room = r.room ∙ size-block_write d ok s.disk b one full has;
          places = λ m hm.
              r.places m hm ∙ index_of-write d ok s.disk inode count v start b one lt e full m hm;
          bytes = λ k hk.
              within-suc start n k (file_byte d ok s'.disk inode k) (file_byte d ok s1.disk inode k)
                (file_byte d ok s.disk inode k) buf (r.bytes k hk)
                (file_byte-write d ok s.disk inode count v start b one lt e full k hk);
        },
      )
