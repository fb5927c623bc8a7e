-- ===== src/Sfs/Index.antt =====
-- get_block_index and set_block_index of sfs.c: from the number of a block in a file to its number
-- on the disk. Blocks 0 to 9 are in the inode, 10 to 109 in the block that entry 10 names, 110 to
-- 1109 in the blocks named by the block that entry 11 names.
pub mod Single
pub mod Double
pub mod RoundTrip
use cs.Base.{
  ℕ, zero, suc, ◌+◌, ◌-◌, ◌/◌, ◌%◌, ◌≡◌, refl, List, ℤ, pos, negsuc, minus_one, is_neg, Option,
  none, some, ltb, leb, if◌then◌else◌, get_or, set,
}
use cs.Sfs.State.{Inode, Store}
use cs.Sfs.Block.{Disk, block_read, block_write}
use cs.Sfs.Short.{get_short, set_short}
use cs.Sfs.Tables.{get_block}

infixl 5 ◌>>=◌
abbrev pub ◌>>=◌ {ℓ κ} : {A : Type ℓ} {B : Type κ} → Option A → (A → Option B) → Option B
none >>= f = none
some a >>= f = f a

-- The first `n` shorts of a buffer set to -1.
unfoldable pub clear_shorts : ℕ → List ℕ → List ℕ
clear_shorts zero buf = buf
clear_shorts (suc n) buf = set_short (clear_shorts n buf) n minus_one

abbrev pub entry : Inode → ℕ → ℤ
entry inode i = get_or inode.blocks i minus_one

abbrev pub set_entry : Inode → ℕ → ℤ → Inode
set_entry inode i b = record inode { blocks = set inode.blocks i b }

module _ (d : Disk) where
  -- The three ranges and what lies beyond.
  unfoldable pub index_of : d.File → Inode → ℕ → ℤ
  index_of f inode n =
      if ltb n 10
      then entry inode n
      else if ltb n 110
      then get_short (block_read d f (entry inode 10) d.junk).1 (n - 10)
      else if ltb n 1110
      then (let buf = (block_read d f (entry inode 11) d.junk).1 in
          let sub_index = get_short buf ((n - 110) / 100) in
          get_short (block_read d f sub_index buf).1 ((n - 110) % 100))
      else minus_one

  -- A negative block number reads in front of the inode's entries.
  unfoldable pub get_block_index : d.File → Inode → ℤ → Option ℤ
  get_block_index f inode (pos n) = some (index_of f inode n)
  get_block_index f inode (negsuc n) = none

  abbrev Block : Type 0
  Block = Store d.File

  abbrev pub write_block : Store d.File → ℤ → List ℕ → Store d.File
  write_block s b buf = record s { disk = (block_write d s.disk b buf).1 }

  -- Entry `i` of the inode, with the content of the block that it names, where the block is allocated
  -- first if there is none. A new block for entry 10 is read from the disk before it is cleared.
  unfoldable pub single_block : Inode → Store d.File → Option (ℤ × List ℕ × Inode × Store d.File)
  single_block inode s =
      if is_neg (entry inode 10)
      then (do
        (b, blocks) ← get_block s.disk_blocks
        some (
          b,
          clear_shorts 100 (block_read d s.disk b d.junk).1,
          set_entry inode 10 b,
          record s { disk_blocks = blocks },
        ))
      else some (entry inode 10, (block_read d s.disk (entry inode 10) d.junk).1, inode, s)

  -- A new block for entry 11 is written as it stands, cleared in the part that is used.
  unfoldable pub double_block : Inode → Store d.File → Option (List ℕ × Inode × Store d.File)
  double_block inode s =
      if is_neg (entry inode 11)
      then (do
        (b, blocks) ← get_block s.disk_blocks
        let buf = clear_shorts 10 d.junk
        some (buf, set_entry inode 11 b, write_block (record s { disk_blocks = blocks }) b buf))
      else some ((block_read d s.disk (entry inode 11) d.junk).1, inode, s)

  -- The block named by short `j` of the buffer `buf` of entry 11, and its content.
  unfoldable pub sub_block : Inode → List ℕ → ℕ → Store d.File → Option (ℤ × List ℕ × Store d.File)
  sub_block inode buf j s =
      if is_neg (get_short buf j)
      then (do
        (b, blocks) ← get_block s.disk_blocks
        let named = set_short buf j b
        let s' = write_block (record s { disk_blocks = blocks }) (entry inode 11) named
        some (b, clear_shorts 100 named, s'))
      else some (get_short buf j, (block_read d s.disk (get_short buf j) buf).1, s)

  unfoldable pub set_single : Inode → ℕ → ℤ → Store d.File → Option (Inode × Store d.File)
  unfolding single_block
  set_single inode n index s = do
    (b, buf, inode', s') ← single_block inode s
    some (inode', write_block s' b (set_short buf (n - 10) index))

  unfoldable pub set_double : Inode → ℕ → ℤ → Store d.File → Option (Inode × Store d.File)
  set_double inode n index s = do
    (buf, inode', s') ← double_block inode s
    (b, sub, s'') ← sub_block inode' buf ((n - 110) / 100) s'
    some (inode', write_block s'' b (set_short sub ((n - 110) % 100) index))

  -- Past the last range nothing happens.
  unfoldable pub set_block_index : Inode → ℤ → ℤ → Store d.File → Option (Inode × Store d.File)
  unfolding set_single set_double
  set_block_index inode (negsuc n) index s = none
  set_block_index inode (pos n) index s =
      if ltb n 10
      then some (set_entry inode n index, s)
      else if ltb n 110
      then set_single inode n index s
      else if leb n 1110
      then set_double inode n index s
      else some (inode, s)

  pub get_block_index-pos :
      (f : d.File) (inode : Inode) (n : ℕ)
      → get_block_index f inode (pos n) ≡ some (index_of f inode n)
  unfolding get_block_index
  get_block_index-pos f inode n = refl
