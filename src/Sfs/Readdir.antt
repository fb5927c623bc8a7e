-- ===== src/Sfs/Readdir.antt =====
-- sfs_readdir of sfs.c. What it gives to the filler is its result; `none` is an access outside a table or
-- a buffer.
pub mod Names
pub mod Tests
use cs.Base.{
  ℕ, zero, suc, ◌+◌, List, [], ◌∷◌, ◌++◌, ℤ, pos, negsuc, minus_one, Option, none, some, Bool, true,
  false, ◌==◌, if◌then◌else◌, get_or,
}
use cs.Sfs.State.{Inode, Fs, at_int, enoent}
use cs.Sfs.Block.{Disk, block_read}
use cs.Sfs.Tables.{path_lookup}
use cs.Sfs.Index.{entry, ◌>>=◌}
use cs.Sfs.Path.{slash}
use cs.Sfs.Remove.{text_of, blocks_of}

-- The first part of a text and what follows, put in front of the parts that follow it.
abbrev pub cons_part : List ℕ → List (List ℕ) → List (List ℕ)
cons_part [] ps = ps
cons_part (c ∷ cs) ps = (c ∷ cs) ∷ ps

-- The tokens of strtok with "/": the parts between slashes that are not empty, `part` being the bytes
-- of the present one, in order.
pub tokens : List ℕ → List ℕ → List (List ℕ)
tokens part [] = cons_part part []
tokens part (c ∷ cs) =
    let next = cons_part part (tokens [] cs) in
    let more = tokens (part ++ c ∷ []) cs in if c == slash then next else more

-- The loop gives every second token to the filler, the first one included.
pub filled : List (List ℕ) → List (List ℕ)
filled [] = []
filled (t ∷ []) = t ∷ []
filled (t ∷ u ∷ ts) = t ∷ filled ts

module _ (d : Disk) where
  -- The result, and the names given to the filler. Whatever the size, one block is read, or none into
  -- a buffer of no bytes.
  pub sfs_readdir : List ℕ → Fs d.File → Option (ℤ × List (List ℕ))
  unfolding filled tokens
  sfs_readdir path s = elim (path_lookup s.name_table path) [
    | negsuc n ↦ some (enoent, [])
    | pos mapping ↦ at_int s.name_table (pos mapping) >>= λ m.
        at_int s.inode_table m.st_ino >>= λ inode.
        if blocks_of inode.stat.st_size == 0
        then none
        else (text_of (block_read d s.store.disk (entry inode 0) d.junk).1 >>= λ text.
            some (pos 0, filled (tokens [] text)))
  ]
