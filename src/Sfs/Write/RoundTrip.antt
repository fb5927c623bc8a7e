-- ===== src/Sfs/Write/RoundTrip.antt =====
-- sfs_write within the blocks that a file has, and what sfs_read gives afterwards.
use cs.Base.{
  ℕ, suc, ◌+◌, ◌-◌, ◌*◌, ◌/◌, ◌%◌, ◌≤◌, ◌<◌, ◌≡◌, refl, ap₂, subst, sym, ◌∙◌, List, [], ◌∷◌, ℤ, pos,
  some, true, false, ltb, leb, ◌&&◌, get_elem?, get_or, length, arith, set, get_elem?-set_self,
}
use Prim.Native.Nat.{min}
use cs.Sfs.State.{Inode, FileEntry, Store, Fs, max_link, max_file_blocks}
use cs.Sfs.Block.{Disk, IsReliable, block_size}
use cs.Sfs.Index.{index_of}
use cs.Sfs.Index.Single.{get_elem?-lt}
use cs.Sfs.Read.{sfs_read}
use cs.Sfs.Read.Content.{file_byte, IsMapped, sfs_read_lem}
use cs.Sfs.Write.{set_size, capacity, store_range, write_range, write_inode, sfs_write}
use cs.Sfs.Write.Apart.{IsApart, IsApart-IsMapped}
use cs.Sfs.Write.Overwrite.{IsWritten, store_range-IsWritten}
use cs.Sfs.Write.Buffer.{overwritten}

-- Lists of one length with the same elements.
pub eq_of_get_or :
    (xs ys : List ℕ)
    → length xs ≡ length ys
    → ((j : ℕ) → j < length ys → get_or xs j 0 ≡ get_or ys j 0)
    → xs ≡ ys
eq_of_get_or [] [] l h = refl
eq_of_get_or [] (y ∷ ys) l h = absurd (omega (arith, l))
eq_of_get_or (x ∷ xs) [] l h = absurd (omega (arith, l))
eq_of_get_or (x ∷ xs) (y ∷ ys) l h =
    ap₂ (λ z zs. z ∷ zs) (h 0 (omega arith))
      (eq_of_get_or xs ys (omega (arith, l)) (λ j lt. h (suc j) (omega arith)))

pub overwritten_inside :
    (bytes : List ℕ) (old : ℕ → ℕ) (offset j : ℕ)
    → j < length bytes
    → overwritten offset bytes old (offset + j) ≡ get_or bytes j 0
overwritten_inside bytes old offset j lt =
    let a : (leb offset (offset + j) && ltb (offset + j) (offset + length bytes)) ≡ true =
      ground arith in
    let b : offset + j - offset ≡ j = omega arith in rw (a, b) refl

module _ (d : Disk) (ok : IsReliable d) where
  -- The bytes of a file do not depend on its size.
  pub file_byte-set_size :
      (f : d.File) (inode : Inode) (z : ℤ) (k : ℕ)
      → file_byte d ok f (set_size inode z) k ≡ file_byte d ok f inode k
  unfolding index_of
  file_byte-set_size f inode z k = refl

  -- sfs_write through an open handle does to the store and the inode what write_inode does.
  pub sfs_write-eq :
      (s : Fs d.File) (e : FileEntry) (inode inode' : Inode) (s' : Store d.File) (bytes : List ℕ)
      → (z r : ℤ) (fh i offset : ℕ) → fh < max_link
      → get_elem? s.open_files fh ≡ some e
      → e.st_ino ≡ pos i
      → get_elem? s.inode_table i ≡ some inode
      → inode.stat.st_size ≡ z
      → write_inode d bytes offset z (inode, s.store) ≡ some (r, (inode', s'))
      → sfs_write d s bytes offset fh
        ≡ some (r, record s { store = s'; inode_table = set s.inode_table i inode' })
  unfolding sfs_write
  sfs_write-eq s e inode inode' s' bytes z r fh i offset hf he hi hn hs w =
      let a : ltb (max_link - 1) fh ≡ false = ground arith in
      let w' : write_inode d bytes offset inode.stat.st_size (inode, s.store)
          ≡ some (r, (inode', s')) =
        subst (λ y. write_inode d bytes offset y (inode, s.store) ≡ some (r, (inode', s'))) (sym hs)
          w in
      rw (a, he, hi, hn, w') refl

  pub write_inode-eq :
      (inode : Inode) (s : Store d.File) (bytes : List ℕ) (n offset : ℕ)
      → offset ≤ n
      → offset + length bytes ≤ capacity n
      → write_inode d bytes offset (pos n) (inode, s) ≡ store_range d bytes offset n (inode, s)
  unfolding write_inode write_range
  write_inode-eq inode s bytes n offset le room =
      let b : ltb n offset ≡ false = ground arith in
      let c : ltb (capacity n) (offset + length bytes) ≡ false = ground arith in rw (b, c) refl

  -- A write of at least one byte through an open handle, into the blocks that a file has for its
  -- size, where these blocks are on the disk and none of them is shared or an indirect block: it
  -- returns the number of bytes, adds it to the size, keeps the table of blocks, and of the
  -- contents of the file's blocks changes the bytes written and those behind them in the last block reached,
  -- which are cleared where this is not the first one.
  pub sfs_write-IsWritten :
      (s : Fs d.File) (e : FileEntry) (inode : Inode) (bytes : List ℕ) (fh i n offset count : ℕ)
      → fh < max_link
      → get_elem? s.open_files fh ≡ some e
      → e.st_ino ≡ pos i
      → get_elem? s.inode_table i ≡ some inode
      → inode.stat.st_size ≡ pos n
      → offset ≤ n
      → 0 < length bytes
      → offset + length bytes ≤ capacity n
      → capacity n ≤ count * block_size
      → IsApart d ok s.store.disk inode count
      → (s' : Store d.File) × (sfs_write d s bytes offset fh
          ≡ some (
            pos (length bytes),
            record s {
              store = s';
              inode_table = set s.inode_table i (set_size inode (pos (n + length bytes)));
            },
          ))
        × IsWritten d ok inode count offset bytes s.store s'
  sfs_write-IsWritten s e inode bytes fh i n offset count hf he hi hn hs le some_bytes hc room v =
      let (s', w, r) =
        store_range-IsWritten d ok bytes offset n count
          ((offset % 512 + length bytes + 511) / 512 - 1) inode s.store v some_bytes (omega arith)
          (omega arith) in
      (
        s',
        sfs_write-eq s e inode (set_size inode (pos (n + length bytes))) s' bytes (pos n)
            (pos (length bytes)) fh i offset hf he hi hn hs
            (write_inode-eq inode s.store bytes n offset le hc ∙ w),
        r,
      )

  -- A file that has the bytes at the offset, in blocks that are on the disk, is read there.
  pub sfs_read-content :
      (s : Fs d.File) (e : FileEntry) (inode : Inode) (bytes : List ℕ) (fh i n offset count : ℕ)
      → fh < max_link
      → get_elem? s.open_files fh ≡ some e
      → e.st_ino ≡ pos i
      → get_elem? s.inode_table i ≡ some inode
      → inode.stat.st_size ≡ pos n
      → 0 < length bytes
      → offset + length bytes ≤ n
      → count ≤ max_file_blocks
      → offset + length bytes ≤ count * block_size
      → IsMapped d ok s.store.disk inode count
      → ((j : ℕ)
          → j < length bytes
          → file_byte d ok s.store.disk inode (offset + j) ≡ get_or bytes j 0)
      → sfs_read d s (length bytes) offset fh ≡ some (pos (length bytes), bytes)
  sfs_read-content s e inode bytes fh i n offset count hf he hi hn hs some_bytes le few room m h =
      let same : min (length bytes) (n - offset) ≡ length bytes = omega arith in
      let (got, reads, long, content) =
        sfs_read_lem d ok s e inode fh i n (length bytes) offset count hf he hi hn hs few
          (omega arith) m (omega arith) (omega arith) in
      let eq : got ≡ bytes =
        eq_of_get_or got bytes (long ∙ same) (λ j lt. content j (omega arith) ∙ h j lt) in
      reads ∙ ap₂ (λ k b. some (pos k, b)) same eq

  pub IsMapped-set_size :
      (f : d.File) (inode : Inode) (z : ℤ) (count : ℕ)
      → IsMapped d ok f inode count
      → IsMapped d ok f (set_size inode z) count
  unfolding index_of
  IsMapped-set_size f inode z count m = m

  -- After such a write sfs_read gives back the bytes written.
  pub sfs_read-sfs_write :
      (s : Fs d.File) (e : FileEntry) (inode : Inode) (bytes : List ℕ) (fh i n offset count : ℕ)
      → fh < max_link
      → get_elem? s.open_files fh ≡ some e
      → e.st_ino ≡ pos i
      → get_elem? s.inode_table i ≡ some inode
      → inode.stat.st_size ≡ pos n
      → offset ≤ n
      → 0 < length bytes
      → offset + length bytes ≤ capacity n
      → capacity n ≤ count * block_size
      → IsApart d ok s.store.disk inode count
      → (s' : Fs d.File) × (sfs_write d s bytes offset fh ≡ some (pos (length bytes), s'))
        × (sfs_read d s' (length bytes) offset fh ≡ some (pos (length bytes), bytes))
  sfs_read-sfs_write s e inode bytes fh i n offset count hf he hi hn hs le some_bytes hc room v =
      let (s', w, r) =
        sfs_write-IsWritten s e inode bytes fh i n offset count hf he hi hn hs le some_bytes hc room
          v in
      let inode' = set_size inode (pos (n + length bytes)) in
      (
        record s { store = s'; inode_table = set s.inode_table i inode' },
        w,
        sfs_read-content (record s { store = s'; inode_table = set s.inode_table i inode' }) e
            inode' bytes fh i (n + length bytes) offset count hf he hi
            (get_elem?-set_self s.inode_table i inode' (get_elem?-lt s.inode_table i inode hn)) refl
            some_bytes (omega arith) v.few (omega arith)
            (IsMapped-set_size s'.disk inode (pos (n + length bytes)) count
              (IsApart-IsMapped d ok s'.disk inode count r.apart))
            (λ j lt.
              file_byte-set_size s'.disk inode (pos (n + length bytes)) (offset + j)
              ∙ r.content (offset + j) (omega arith)
              ∙ overwritten_inside bytes (file_byte d ok s.store.disk inode) offset j lt),
      )
