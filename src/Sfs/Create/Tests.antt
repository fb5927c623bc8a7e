-- ===== src/Sfs/Create/Tests.antt =====
-- The creation of a file in memory.
use cs.Base.{ℕ, ◌≡◌, refl, [], ℤ, pos, Option, none, some, arith}
use cs.Sfs.State.{Fs}
use cs.Sfs.Tables.{scan, modify, same_text, get_inode, get_mapping, get_fh, path_lookup}
use cs.Sfs.Index.{index_of, get_block_index}
use cs.Sfs.Path.{get_cwd_path, get_name, last_slash, cwd_before, name_after}
use cs.Sfs.Block.{block_read, block_write}
use cs.Sfs.Write.Refine.{HasFile}
use cs.Sfs.Create.Room.{NeverShrinks, HasRoom}
use cs.Sfs.Create.Opened.{sfs_create-HasFile}
use cs.Sfs.Write.{copy_in}
use cs.Sfs.Create.{
  formatted, exceeds, add_size, add_entry, find_end, spill, enter_text, digits, entry_text,
  enter_name, enter_parent, name_file, sfs_create,
}
use cs.Sfs.Create.Found.{Creates, sfs_create-Creates}
use cs.Sfs.Memory.{memory, memory-IsReliable, read_at, write_at}
use cs.Sfs.Fixture.{store, new_path, roomy, root_of_new, caller, unknown, new_path-NoPercent}

-- The state that a call leaves, if it does not fault.
abbrev left_in : Option (ℤ × ℤ × Fs (ℕ → ℕ)) → Fs (ℕ → ℕ)
left_in none = roomy
left_in (some r) = r.2

created :
    sfs_create memory caller new_path 0 roomy
    ≡ some (pos 0, pos 1, left_in (sfs_create memory caller new_path 0 roomy))
unfolding sfs_create name_file get_inode get_mapping get_fh path_lookup scan same_text modify
    enter_name enter_parent formatted enter_text find_end spill add_entry exceeds add_size
    entry_text digits get_cwd_path get_name last_slash cwd_before name_after get_block_index
    index_of block_read block_write read_at write_at copy_in
created = refl

sfs_create-Creates_example :
    Creates memory new_path roomy (pos 1) (left_in (sfs_create memory caller new_path 0 roomy))
sfs_create-Creates_example =
    sfs_create-Creates memory caller new_path 0 (pos 1) roomy
      (left_in (sfs_create memory caller new_path 0 roomy)) unknown new_path-NoPercent created

memory-NeverShrinks : NeverShrinks memory memory-IsReliable
unfolding memory-IsReliable
memory-NeverShrinks f o b = omega arith

disk_room : HasRoom memory memory-IsReliable store
unfolding memory-IsReliable
disk_room = omega arith

sfs_create-HasFile_example :
    HasFile memory memory-IsReliable (left_in (sfs_create memory caller new_path 0 roomy)) 1 []
sfs_create-HasFile_example =
    sfs_create-HasFile memory memory-IsReliable caller new_path 0 1 roomy
      (left_in (sfs_create memory caller new_path 0 roomy)) unknown new_path-NoPercent root_of_new
      created (omega arith) memory-NeverShrinks disk_room
