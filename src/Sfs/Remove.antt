-- ===== src/Sfs/Remove.antt =====
-- sfs_unlink and sfs_rmdir of sfs.c, with removeSubstring. `none` is an access outside a table or a
-- buffer.
pub mod Match
pub mod Entries
pub mod Faults
pub mod Tests
use cs.Base.{
  ℕ, zero, suc, ◌+◌, ◌-◌, ◌/◌, ◌%◌, ◌^◌, ◌≡◌, refl, ◌≢◌, List, [], ◌∷◌, ◌++◌, ℤ, pos, negsuc,
  minus_one, Option, none, some, Bool, true, false, ltb, leb, ◌==◌, ◌&&◌, if◌then◌else◌, length,
  replicate, drop,
}
use cs.Sfs.State.{Inode, Store, Fs, at_int, put_int, enoent}
use cs.Sfs.Block.{Disk, block_read, block_size, zeros}
use cs.Sfs.Tables.{free_block, free_inode, free_mapping, path_lookup}
use cs.Sfs.Index.{get_block_index, set_block_index, write_block, ◌>>=◌}
use cs.Sfs.Short.{to_int}
use cs.Sfs.Path.{get_cwd_path, get_name}
use cs.Sfs.Create.{entry_text, max_path_len}

-- `-ENOTEMPTY`
abbrev pub enotempty : ℤ
enotempty = negsuc 38

-- The text at the start of a buffer, up to its 0.
unfoldable pub text_of : List ℕ → Option (List ℕ)
text_of [] = none
text_of (c ∷ cs) = if c == 0 then some [] else (text_of cs >>= λ t. some (c ∷ t))

unfoldable pub starts_with : List ℕ → List ℕ → Bool
starts_with [] t = true
starts_with (c ∷ cs) [] = false
starts_with (c ∷ cs) (b ∷ t) = c == b && starts_with cs t

-- Every round of the loop looks on from the place of the last match, where the text that followed the
-- match now stands. A round, or a step of strstr to the next place, takes one unit of fuel.
unfoldable pub remove_from : ℕ → List ℕ → List ℕ → List ℕ
unfolding starts_with
remove_from zero sub t = t
remove_from (suc fuel) sub [] = []
remove_from (suc fuel) sub (c ∷ t) =
    let removed = remove_from fuel sub (drop (length sub) (c ∷ t)) in
    let kept = c ∷ remove_from fuel sub t in if starts_with sub (c ∷ t) then removed else kept

-- The text to remove is not empty, so that each step drops a byte or keeps one.
unfoldable pub remove_substring : List ℕ → List ℕ → List ℕ
unfolding remove_from
remove_substring sub t = remove_from (length t) sub t

-- `size/BLOCK_SIZE + (size%BLOCK_SIZE) ? 1 : 0`: the condition is the sum of both.
pub blocks_of : ℤ → ℕ
blocks_of (pos zero) = 0
blocks_of (pos (suc n)) = 1
blocks_of (negsuc n) = 1

pub blocks_of-some : (z : ℤ) → z ≢ pos 0 → (blocks_of z == 0) ≡ false
unfolding blocks_of
blocks_of-some (pos zero) h = elim (h refl) [ ]
blocks_of-some (pos (suc n)) h = refl
blocks_of-some (negsuc n) h = refl

-- `size/BLOCK_SIZE > (size - resize)/BLOCK_SIZE`; a division in C rounds towards 0.
pub falls : ℤ → ℕ → Bool
falls (pos n) resize =
    if leb resize n
    then ltb ((n - resize) / block_size) (n / block_size)
    else ltb 0 (n / block_size + (resize - n) / block_size)
falls (negsuc n) resize = ltb (suc n / block_size) ((suc n + resize) / block_size)

pub sub_size : ℤ → ℕ → ℤ
sub_size (pos n) k = if leb k n then pos (n - k) else negsuc (k - suc n)
sub_size (negsuc n) k = negsuc (n + k)

-- `st_size -= resize` and `st_nlink--`
pub drop_entry : ℕ → Inode → Inode
unfolding sub_size
drop_entry resize n = record n {
  stat = record (n.stat) {
    st_size = sub_size n.stat.st_size resize;
    st_nlink = (n.stat.st_nlink + 2 ^ 64 - 1) % 2 ^ 64;
  };
}

module _ (d : Disk) where
  -- The text of the directory: of its first block, since `blocks` is at most 1. A directory of size 0
  -- has a buffer of no bytes.
  unfoldable pub directory_text : Inode → d.File → Option (List ℕ)
  unfolding text_of blocks_of to_int
  directory_text cwd f =
      if blocks_of (to_int cwd.stat.st_size) == 0
      then none
      else (get_block_index d f cwd (pos 0) >>= λ b. text_of (block_read d f b zeros).1)

  -- Frees the block with number 1 of the directory, where the new size calls for fewer blocks.
  pub shrink : ℕ → Inode → Store d.File → Option (Inode × Store d.File)
  unfolding falls to_int
  shrink resize cwd s =
      if falls (to_int cwd.stat.st_size) resize
      then (do
        b ← get_block_index d s.disk cwd (pos 1)
        blocks ← free_block s.disk_blocks b
        set_block_index d cwd (pos 1) minus_one (record s { disk_blocks = blocks }))
      else some (cwd, s)

  -- Takes an entry out of the text of a directory, and writes it back. `resize` is what is free in the
  -- block after that.
  unfoldable pub remove_text :
      List ℕ → List ℕ → Inode → Store d.File → Option (Inode × Store d.File)
  unfolding remove_substring shrink drop_entry
  remove_text entry text cwd s = do
    let rest = remove_substring entry text
    let resize = block_size - length rest
    b ← get_block_index d s.disk cwd (pos 0)
    let s1 = write_block d s b (rest ++ replicate resize 0)
    (cwd', s2) ← shrink resize cwd s1
    some (drop_entry resize cwd', s2)

  -- `sprintf(entry, "/%s/%i", name, st_ino)` into a buffer of MAX_PATH_LEN bytes.
  unfoldable pub entry_for : List ℕ → ℕ → Option (List ℕ)
  entry_for name i =
      let entry = entry_text name i in
      if ltb (max_path_len - 1) (length entry) then none else some entry

  -- The tables give up the inode and the name.
  unfoldable pub forget : ℕ → ℕ → Fs d.File → Option (Fs d.File)
  forget mapping i s = free_inode d s (pos i) >>= λ s'.
      some (record s' { name_table = free_mapping s'.name_table mapping })

  -- The common part: `busy` is the test of sfs_rmdir on the inode. With a negative inode number the
  -- last step is a fault.
  unfoldable pub remove_path : (Inode → Bool) → List ℕ → ℕ → Fs d.File → Option (ℤ × Fs d.File)
  unfolding directory_text remove_text entry_for forget
  remove_path busy path mapping s = at_int s.name_table (pos mapping) >>= λ m. elim (m.st_ino) [
    | negsuc n ↦ none
    | pos i ↦ get_name path >>= λ name. entry_for name i >>= λ entry. get_cwd_path path >>= λ r.
        at_int s.name_table (path_lookup s.name_table r.1) >>= λ c.
        at_int s.inode_table c.st_ino >>= λ cwd. directory_text cwd s.store.disk >>= λ text.
        at_int s.inode_table (pos i) >>= λ n.
        if busy n
        then some (enotempty, s)
        else (remove_text entry text cwd s.store >>= λ x.
            forget mapping i
              (record s { store = x.1; inode_table = put_int s.inode_table c.st_ino x.0 })
            >>= λ s'. some (pos 0, s'))
  ]

  unfoldable pub sfs_unlink : List ℕ → Fs d.File → Option (ℤ × Fs d.File)
  unfolding remove_path
  sfs_unlink path s = elim (path_lookup s.name_table path) [
    | negsuc n ↦ some (enoent, s)
    | pos mapping ↦ remove_path (λ n. false) path mapping s
  ]

  -- The slashes of the directory are counted and the number is not used.
  pub sfs_rmdir : List ℕ → Fs d.File → Option (ℤ × Fs d.File)
  unfolding remove_path
  sfs_rmdir path s = elim (path_lookup s.name_table path) [
    | negsuc n ↦ some (enoent, s)
    | pos mapping ↦ remove_path (λ n. ltb 2 n.stat.st_nlink) path mapping s
  ]
