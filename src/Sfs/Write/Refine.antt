-- ===== src/Sfs/Write/Refine.antt =====
-- An open file of sfs.c as a list of bytes: sfs_write at its end appends, sfs_read takes a part out.
use cs.Base.{
  ℕ, ◌+◌, ◌-◌, ◌*◌, ◌^◌, ◌≤◌, ◌<◌, ◌≡◌, refl, ap₂, subst, sym, ◌∙◌, List, [], ◌∷◌, ◌++◌, pos,
  Option, none, some, true, ltb, if◌then◌else◌, get_elem?, get_or, length, arith, Bool-cases, inl,
  inr, set, get_elem?-set_self, length-append, get_or-append_left, get_or-append_right, get_or-take,
  get_or-drop, length-take, length-drop, take, drop, ltb→lt, eq_int,
}
use Prim.Native.Nat.{min}
use mathlib.Core.List.{append-nil, append_assoc}
use cs.Sfs.State.{Inode, FileEntry, Fs, max_link}
use cs.Sfs.Block.{Disk, IsReliable, block_size}
use cs.Sfs.Index.{◌>>=◌}
use cs.Sfs.Index.Single.{get_elem?-lt}
use cs.Sfs.Read.{sfs_read}
use cs.Sfs.Read.Content.{file_byte, sfs_read_lem}
use cs.Sfs.Write.{sfs_write}
use cs.Sfs.Write.Apart.{IsApart-IsMapped}
use cs.Sfs.Write.RoundTrip.{eq_of_get_or, sfs_write-eq}
use cs.Sfs.Tables.Count.{count_free}
use cs.Sfs.Write.Append.{blocks_of, IsFile, write_inode-IsAppended}

abbrev pub concat : List (List ℕ) → List ℕ
concat [] = []
concat (p ∷ ps) = p ++ concat ps

-- No piece is empty.
abbrev pub AllFilled : List (List ℕ) → Type 0
AllFilled [] = Unit
AllFilled (p ∷ ps) = (0 < length p) × AllFilled ps

module _ (d : Disk) where
  -- A program that writes pieces one behind the other, from byte `n` of the file on, and stops where a
  -- call does not return the length of its piece.
  pub write_all : Fs d.File → ℕ → ℕ → List (List ℕ) → Option (Fs d.File)
  write_all s fh n [] = some s
  write_all s fh n (p ∷ ps) = sfs_write d s p n fh >>= λ r.
      let rest = write_all r.1 fh (n + length p) ps in
      if eq_int r.0 (pos (length p)) then rest else none

module _ (d : Disk) (ok : IsReliable d) where
  -- The handle has a file open whose bytes are `xs`. It has the blocks for them, apart from one another and
  -- marked as taken.
  pub record HasFile (s : Fs d.File) (fh : ℕ) (xs : List ℕ) : Type 0 where
    pub e : FileEntry
    pub i : ℕ
    pub inode : Inode
    pub in_range : fh < max_link
    pub opened : get_elem? s.open_files fh ≡ some e
    pub names : e.st_ino ≡ pos i
    pub found : get_elem? s.inode_table i ≡ some inode
    pub file : IsFile d ok inode (length xs) s.store
    pub content : (k : ℕ) → k < length xs → file_byte d ok s.store.disk inode k ≡ get_or xs k 0

  -- sfs_write of at least one byte at the end of a file of at most ten blocks then, where the blocks
  -- that it needs are free: it returns the number of bytes, the file has them behind those it had,
  -- and just these blocks are no longer free.
  pub sfs_write-HasFile :
      (s : Fs d.File) (fh : ℕ) (xs bytes : List ℕ)
      → HasFile s fh xs
      → 0 < length bytes
      → length xs + length bytes ≤ 10 * block_size
      → blocks_of (length xs + length bytes)
        ≤ blocks_of (length xs) + count_free s.store.disk_blocks
      → (s' : Fs d.File) × (sfs_write d s bytes (length xs) fh ≡ some (pos (length bytes), s'))
        × HasFile s' fh (xs ++ bytes)
        × (count_free s.store.disk_blocks + blocks_of (length xs)
            ≡ count_free s'.store.disk_blocks + blocks_of (length (xs ++ bytes)))
  sfs_write-HasFile s fh xs bytes v some_bytes few enough =
      let (inode', st, w, r) =
        write_inode-IsAppended d ok v.inode s.store bytes (length xs) v.file some_bytes few
          enough in
      let total : length xs + length bytes ≡ length (xs ++ bytes) =
        omega (arith, length-append xs bytes) in
      (
        record s { store = st; inode_table = set s.inode_table v.i inode' },
        sfs_write-eq d ok s v.e v.inode inode' st bytes (pos (length xs)) (pos (length bytes)) fh
            v.i (length xs) v.in_range v.opened v.names v.found v.file.size w,
        record {
          e = v.e;
          i = v.i;
          inode = inode';
          in_range = v.in_range;
          opened = v.opened;
          names = v.names;
          found =
              get_elem?-set_self s.inode_table v.i inode'
                (get_elem?-lt s.inode_table v.i v.inode v.found);
          file = subst (λ n. IsFile d ok inode' n st) total r.file;
          content = λ k h. elim (Bool-cases (ltb k (length xs))) [
            | inl a ↦
                let lt = ltb→lt k (length xs) a in
                r.kept k lt ∙ v.content k lt ∙ sym (get_or-append_left xs bytes k 0 lt)
            | inr a ↦
                let j : k ≡ length xs + (k - length xs) = ground arith in
                subst (λ m. file_byte d ok st.disk inode' m ≡ get_or bytes (k - length xs) 0)
                  (sym j) (r.new (k - length xs) (omega (arith, total)))
                ∙ sym (get_or-append_right xs bytes k (k - length xs) 0 j)
          ];
        },
        omega (arith, r.free_left, total),
      )

  -- sfs_read of less than 2^63 bytes at an offset inside the file gives the bytes of the file from
  -- there on, as many as are asked for or as there are.
  pub sfs_read-HasFile :
      (s : Fs d.File) (fh size offset : ℕ) (xs : List ℕ)
      → HasFile s fh xs
      → offset < length xs
      → size < 2 ^ 63
      → sfs_read d s size offset fh
        ≡ some (pos (length (take size (drop offset xs))), take size (drop offset xs))
  sfs_read-HasFile s fh size offset xs v lt small =
      let part = take size (drop offset xs) in
      let few = v.file.growable.apart.few in
      let (got, reads, long, content) =
        sfs_read_lem d ok s v.e v.inode fh v.i (length xs) size offset (blocks_of (length xs))
          v.in_range v.opened v.names v.found v.file.size few (omega arith)
          (IsApart-IsMapped d ok s.store.disk v.inode (blocks_of (length xs)) v.file.growable.apart)
          lt small in
      let n : length part ≡ min size (length xs - offset) =
        omega (arith, length-take size (drop offset xs), length-drop offset xs) in
      let same : got ≡ part = eq_of_get_or got part (omega (arith, long, n)) (λ j h.
        content j (omega (arith, n))
        ∙ v.content (offset + j) (omega (arith, n))
        ∙ sym (get_or-drop offset xs j (offset + j) 0 refl)
        ∙ sym (get_or-take size (drop offset xs) j 0 (omega (arith, n)))) in
      reads ∙ ap₂ (λ k b. some (pos k, b)) (sym n) same

  write_all_step :
      (p : List ℕ) (ps : List (List ℕ)) (s s1 : Fs d.File) (fh n : ℕ) (r : Option (Fs d.File))
      → sfs_write d s p n fh ≡ some (pos (length p), s1)
      → write_all d s1 fh (n + length p) ps ≡ r
      → write_all d s fh n (p ∷ ps) ≡ r
  unfolding write_all
  write_all_step p ps s s1 fh n r w e =
      let a : eq_int (pos (length p)) (pos (length p)) ≡ true = ground arith in rw (w, a) e

  write_all-HasFile :
      (ps : List (List ℕ)) (s : Fs d.File) (fh : ℕ) (xs : List ℕ)
      → HasFile s fh xs
      → AllFilled ps
      → length xs + length (concat ps) ≤ 10 * block_size
      → blocks_of (length xs + length (concat ps))
        ≤ blocks_of (length xs) + count_free s.store.disk_blocks
      → (s' : Fs d.File) × (write_all d s fh (length xs) ps ≡ some s')
        × HasFile s' fh (xs ++ concat ps)
  unfolding write_all
  write_all-HasFile [] s fh xs v filled few enough =
      (s, refl, subst (HasFile s fh) (sym (append-nil xs)) v)
  write_all-HasFile (p ∷ ps) s fh xs v filled few enough =
      let split = length-append p (concat ps) in
      let total = length-append xs p in
      let (s1, w, r, c) =
        sfs_write-HasFile s fh xs p v filled.0 (omega (arith, split)) (omega (arith, split)) in
      let (s2, w2, r2) =
        write_all-HasFile ps s1 fh (xs ++ p) r filled.1 (omega (arith, split, total))
          (omega (arith, split, total, c)) in
      (
        s2,
        write_all_step p ps s s1 fh (length xs) (some s2) w
            (subst (λ n. write_all d s1 fh n ps ≡ some s2) total w2),
        subst (HasFile s2 fh) (append_assoc xs p (concat ps)) r2,
      )

  -- Pieces that are not empty are written one behind the other into an empty open file, at most ten
  -- blocks in all, for which there are free blocks: no write fails, and what sfs_read then gives at any offset
  -- in the file, for less than 2^63 bytes, is that part of the pieces put together.
  pub sfs_read-write_all :
      (ps : List (List ℕ)) (s : Fs d.File) (fh size offset : ℕ)
      → HasFile s fh []
      → AllFilled ps
      → length (concat ps) ≤ 10 * block_size
      → blocks_of (length (concat ps)) ≤ count_free s.store.disk_blocks
      → offset < length (concat ps)
      → size < 2 ^ 63
      → (s' : Fs d.File) × (write_all d s fh 0 ps ≡ some s')
        × (sfs_read d s' size offset fh
            ≡ some (
              pos (length (take size (drop offset (concat ps)))),
              take size (drop offset (concat ps)),
            ))
  sfs_read-write_all ps s fh size offset v filled few enough lt small =
      let (s', w, r) = write_all-HasFile ps s fh [] v filled (omega arith) (omega arith) in
      (s', w, sfs_read-HasFile s' fh size offset (concat ps) r lt small)
