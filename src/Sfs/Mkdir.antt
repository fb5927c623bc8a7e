-- ===== src/Sfs/Mkdir.antt =====
-- sfs_mkdir of sfs.c. `none` is an access outside a table or a buffer.
pub mod Found
pub mod Text
pub mod Parent
pub mod Listed
pub mod Tests
use Prim.Native.Nat.{bit_or}
use cs.Base.{
  ℕ, ◌+◌, List, [], ◌∷◌, ◌++◌, ℤ, pos, negsuc, Option, none, some, if◌then◌else◌, is_pos, length,
  set, get_elem?,
}
use cs.Sfs.State.{Stat, Inode, Store, Fs, at_int, enomem}
use cs.Sfs.Block.{Disk, block_read, zeros}
use cs.Sfs.Tables.{modify, get_inode, get_mapping, get_block, free_inode, path_lookup}
use cs.Sfs.Index.{get_block_index, write_block, set_entry, ◌>>=◌}
use cs.Sfs.Path.{get_cwd_path, get_name, slash}
use cs.Sfs.File.{Caller}
use cs.Sfs.Read.{to_short}
use cs.Sfs.Write.{copy_in}
use cs.Sfs.Create.{digits, entry_text, enter_name, exceeds, add_entry, find_end, eexist}

-- `mode | S_IFDIR`
abbrev pub directory_stat : Caller → ℕ → Stat
directory_stat c mode = record {
  st_mode = bit_or mode 0o40000;
  st_nlink = 2;
  st_uid = c.uid;
  st_gid = c.gid;
  st_size = pos 512;
  st_blocks = 1;
  st_atime = c.now;
  st_mtime = c.now;
  st_ctime = c.now;
}

-- `sprintf(buf, "./%i/../%i", inode, cwd_inode)`
unfoldable pub first_entries : ℕ → ℕ → List ℕ
first_entries inode parent =
    46 ∷ slash ∷ digits 10 inode [] ++ slash ∷ 46 ∷ 46 ∷ slash ∷ digits 10 parent []

module _ (d : Disk) where
  -- Enters a text into a directory. The buffer has BLOCK_SIZE bytes here: where the entry would go on in
  -- a new block, its end is written, and then read, behind the buffer.
  unfoldable pub enter_text_here : List ℕ → Inode → Store d.File → Option (Inode × Store d.File)
  enter_text_here text inode s = do
    b ← get_block_index d s.disk inode (pos 0)
    (i, place, buf) ← find_end d 1111 s.disk inode 0 (block_read d s.disk b zeros).1
    whole ← copy_in place (text ++ 0 ∷ []) buf
    b' ← get_block_index d s.disk inode (to_short i)
    let s1 = write_block d s b' whole
    let size = length text + 1
    if exceeds inode.stat.st_size size then none else some (add_entry size inode, s1)

  -- The part behind the name table: the entries of the new directory, and its own in its parent.
  unfoldable pub fill_directory : List ℕ → ℕ → Fs d.File → Option (Fs d.File)
  unfolding first_entries enter_text_here
  fill_directory path inode s = get_cwd_path path >>= λ r.
      at_int s.name_table (path_lookup s.name_table r.1) >>= λ m. elim (m.st_ino) [
        | negsuc n ↦ none
        | pos parent ↦ get_elem? s.inode_table inode >>= λ n.
            copy_in 0 (first_entries inode parent ++ 0 ∷ []) zeros >>= λ buf.
            get_block_index d s.store.disk n (pos 0) >>= λ b.
            let s1 = write_block d s.store b buf in
            get_elem? s.inode_table parent >>= λ cwd. get_name path >>= λ name.
            enter_text_here (entry_text name inode) cwd s1 >>= λ x.
            some (record s { store = x.1; inode_table = set s.inode_table parent x.0 })
      ]

  -- The part for an inode that has been taken, with its block.
  unfoldable pub name_directory : List ℕ → ℕ → Fs d.File → Option (ℤ × Fs d.File)
  name_directory path inode s =
      let (mapping, names) = get_mapping s.name_table in
      elim mapping [
        | negsuc n ↦ free_inode d s (pos inode) >>= λ s'. some (enomem, s')
        | pos m ↦ enter_name names m path inode >>= λ names'.
            fill_directory path inode (record s { name_table = names' }) >>= λ s'. some (pos 0, s')
      ]

  -- The inode -1 is not turned away.
  unfoldable pub sfs_mkdir : Caller → List ℕ → ℕ → Fs d.File → Option (ℤ × Fs d.File)
  sfs_mkdir c path mode s =
      if is_pos (path_lookup s.name_table path)
      then some (eexist, s)
      else (let (inode, inodes) = get_inode s.inode_table in
          elim inode [
            | negsuc n ↦ none
            | pos i ↦ get_block s.store.disk_blocks >>= λ r. name_directory path i (record s {
              store = record (s.store) { disk_blocks = r.1 };
              inode_table =
                  modify inodes i
                    (λ n. set_entry (record n { stat = directory_stat c mode }) 0 r.0);
            })
          ])
