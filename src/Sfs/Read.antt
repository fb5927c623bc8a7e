-- ===== src/Sfs/Read.antt =====
-- sfs_read of sfs.c.
pub mod Content
use cs.Base.{
  ℕ, zero, suc, ◌+◌, ◌-◌, ◌*◌, ◌/◌, ◌%◌, ◌^◌, List, [], ◌∷◌, ◌++◌, ℤ, pos, negsuc, Option, none,
  some, Bool, true, false, ltb, leb, if◌then◌else◌, get_elem?, take, drop,
}
use cs.Sfs.State.{Inode, FileEntry, Store, Fs, at_int, max_link, ebadf, eof}
use cs.Sfs.Block.{Disk, block_read, block_size}
use cs.Sfs.Short.{of_word, to_int}
use cs.Sfs.Index.{get_block_index, ◌>>=◌}
use cs.Sfs.Span.{spanned}

-- The int as it is passed for a short.
abbrev pub to_short : ℕ → ℤ
to_short n = of_word (n % 2 ^ 16)

module _ (d : Disk) where
  -- The blocks of the file from number `start` on, one behind the other.
  pub read_blocks : d.File → Inode → ℕ → ℕ → Option (List ℕ)
  read_blocks f inode start zero = some []
  read_blocks f inode start (suc n) = do
    b ← get_block_index d f inode (to_short start)
    rest ← read_blocks f inode (start + 1) n
    some ((block_read d f b d.junk).1 ++ rest)

  -- `memcpy` of the asked bytes out of the blocks read, whose number is returned as an int; a copy past
  -- their end is a fault.
  pub copy_out : ℕ → ℕ → ℕ → List ℕ → Option (ℤ × List ℕ)
  copy_out rounds block_offset size buf =
      if ltb (rounds * block_size) (block_offset + size)
      then none
      else some (to_int (pos size), take size (drop block_offset buf))

  -- The part that reads, for an offset inside the file.
  pub read_range : d.File → Inode → ℕ → ℕ → Option (ℤ × List ℕ)
  read_range f inode size offset = do
    buf ← read_blocks f inode (offset / block_size) (spanned offset size)
    copy_out (spanned offset size) (offset % block_size) size buf

  -- The tests on the size of the file: at its end nothing is read, and a read is cut off there.
  pub read_inode : d.File → Inode → ℤ → ℕ → ℕ → Option (ℤ × List ℕ)
  read_inode f inode (negsuc n) size offset = some (eof, [])
  read_inode f inode (pos n) size offset =
      if leb n offset
      then some (eof, [])
      else read_range f inode (if ltb n ((offset + size) % 2 ^ 64) then n - offset else size) offset

  -- The handle is unsigned. The result is what the call returns, with the bytes it has stored.
  pub sfs_read : Fs d.File → ℕ → ℕ → ℕ → Option (ℤ × List ℕ)
  sfs_read s size offset fh =
      if ltb (max_link - 1) fh then some (ebadf, []) else (elim (get_elem? s.open_files fh) [
        | none ↦ none
        | some e ↦ (elim (e.st_ino) [
          | negsuc n ↦ some (ebadf, [])
          | pos i ↦ (elim (get_elem? s.inode_table i) [
            | none ↦ none
            | some inode ↦ read_inode s.store.disk inode inode.stat.st_size size offset
          ])
        ])
      ])
