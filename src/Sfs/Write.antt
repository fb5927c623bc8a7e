-- ===== src/Sfs/Write.antt =====
-- sfs_write of sfs.c.
pub mod Apart
pub mod Content
pub mod Buffer
pub mod Overwrite
pub mod RoundTrip
pub mod Grow
pub mod Append
pub mod Refine
pub mod Tests
use cs.Base.{
  ℕ, zero, suc, ◌+◌, ◌-◌, ◌*◌, ◌/◌, ◌%◌, ◌^◌, List, [], ◌∷◌, ◌++◌, ℤ, pos, negsuc, Option, none,
  some, Bool, true, false, ltb, leb, ◌==◌, if◌then◌else◌, get_elem?, take, drop, length, replicate,
  set,
}
use cs.Sfs.Short.{to_int}
use cs.Sfs.State.{Stat, Inode, FileEntry, Store, Fs, max_link, max_file_blocks, ebadf, efbig}
use cs.Sfs.Block.{Disk, block_read, block_write, block_size}
use cs.Sfs.Tables.{get_block}
use cs.Sfs.Index.{get_block_index, set_block_index, write_block, ◌>>=◌}
use cs.Sfs.Span.{spanned, partial}
use cs.Sfs.Read.{to_short}

-- `stat->st_blocks++` and `stat->st_size += size`
abbrev pub add_block : Inode → Inode
add_block n = record n { stat = record (n.stat) { st_blocks = n.stat.st_blocks + 1 } }

abbrev pub set_size : Inode → ℤ → Inode
set_size n z = record n { stat = record (n.stat) { st_size = z } }

-- The bytes that the blocks of a file of `n` bytes hold.
abbrev pub capacity : ℕ → ℕ
capacity n = (n / block_size + partial (n % block_size)) * block_size

-- The blocks that the file lacks, in `size_t` arithmetic, then an `int`.
pub blocks_needed : ℕ → ℕ → ℕ
blocks_needed n end =
    let blocks =
      (end / block_size
        + 2 ^ 64
        - n / block_size
        - partial (n % block_size)
        + partial (end % block_size))
      % 2 ^ 64
      % 2 ^ 32 in
    if ltb blocks (2 ^ 31) then blocks else 0

-- `memcpy` of the data over the buffer, at `offset`; a copy past its end is a fault.
unfoldable pub copy_in : ℕ → List ℕ → List ℕ → Option (List ℕ)
copy_in offset bytes buf =
    if ltb (length buf) (offset + length bytes)
    then none
    else some (take offset buf ++ bytes ++ drop (offset + length bytes) buf)

module _ (d : Disk) where
  -- The state of a write: the inode and the store.
  abbrev pub Open : Type 0
  Open = Inode × Store d.File

  -- Adds blocks one by one, from number `i` on. The flag is false where the file would have more than
  -- MAX_FILE_BLOCKS + 1; the block taken for it stays taken.
  unfoldable pub grow : ℕ → ℕ → Open → Option (Bool × Open)
  grow zero i (inode, s) = some (true, (inode, s))
  grow (suc n) i (inode, s) = get_block s.disk_blocks >>= λ r.
      let s1 = record s { disk_blocks = r.1 } in
      let rest =
        set_block_index d inode (to_short i) r.0 s1 >>= λ t. grow n (i + 1) (add_block t.0, t.1) in
      if ltb max_file_blocks i then some (false, (inode, s1)) else rest

  -- Writes the blocks of the buffer back, to the blocks of the file from number `start` on.
  unfoldable pub write_back : ℕ → ℕ → List ℕ → Open → Option (Store d.File)
  write_back zero start buf (inode, s) = some s
  write_back (suc n) start buf (inode, s) = get_block_index d s.disk inode (to_short start) >>= λ b.
      write_back n (start + 1) (drop block_size buf)
        (inode, write_block d s b (take block_size buf))

  -- The buffer: zeros, but for the first block, which is read from the disk if there is room for it.
  unfoldable pub load_first : ℕ → ℕ → Open → Option (List ℕ)
  load_first zero start o = none
  load_first (suc n) start (inode, s) = get_block_index d s.disk inode (to_short start) >>= λ b.
      some ((block_read d s.disk b (replicate block_size 0)).1 ++ replicate (n * block_size) 0)

  -- The part after the file has been given its blocks. The number of bytes is returned as an int.
  unfoldable pub store_range : List ℕ → ℕ → ℕ → Open → Option (ℤ × Open)
  store_range bytes offset n (inode, s) = do
    first ← load_first (spanned offset (length bytes)) (offset / block_size) (inode, s)
    buf ← copy_in (offset % block_size) bytes first
    s' ← write_back (spanned offset (length bytes)) (offset / block_size) buf (inode, s)
    some (to_int (pos (length bytes)), (set_size inode (pos (n + length bytes)), s'))

  unfoldable pub after_grow : List ℕ → ℕ → ℕ → Bool × Open → Option (ℤ × Open)
  after_grow bytes offset n (true, o) = store_range bytes offset n o
  after_grow bytes offset n (false, o) = some (efbig, o)

  -- For an offset inside the file or at its end.
  unfoldable pub write_range : List ℕ → ℕ → ℕ → Open → Option (ℤ × Open)
  write_range bytes offset n (inode, s) =
      if ltb (capacity n) (offset + length bytes)
      then (grow (blocks_needed n (offset + length bytes)) inode.stat.st_blocks (inode, s)
          >>= after_grow bytes offset n)
      else store_range bytes offset n (inode, s)

  unfoldable pub write_inode : List ℕ → ℕ → ℤ → Open → Option (ℤ × Open)
  write_inode bytes offset (negsuc n) o = some (pos 0, o)
  write_inode bytes offset (pos n) o =
      if ltb n offset then some (pos 0, o) else write_range bytes offset n o

  unfoldable pub sfs_write : Fs d.File → List ℕ → ℕ → ℕ → Option (ℤ × Fs d.File)
  sfs_write s bytes offset fh =
      if ltb (max_link - 1) fh then some (ebadf, s) else (elim (get_elem? s.open_files fh) [
        | none ↦ none
        | some e ↦ (elim (e.st_ino) [
          | negsuc n ↦ some (ebadf, s)
          | pos i ↦ get_elem? s.inode_table i >>= λ inode.
              write_inode bytes offset inode.stat.st_size (inode, s.store) >>= λ r.
              some (r.0, record s { store = r.1.1; inode_table = set s.inode_table i r.1.0 })
        ])
      ])
