-- ===== src/Sfs/Mkdir/Tests.antt =====
-- The creation of a directory in memory.
use cs.Base.{
  ℕ, ◌+◌, ◌-◌, ◌*◌, ◌/◌, ◌%◌, ◌≤◌, ◌≡◌, refl, List, [], ◌∷◌, ℤ, pos, minus_one, Option, none, some,
  ltb, ltb→lt, arith, Bool-cases, inl, inr,
}
use cs.Sfs.State.{Fs}
use cs.Sfs.Tables.{scan, modify, same_text, get_inode, get_mapping, get_block, path_lookup}
use cs.Sfs.Index.{index_of, get_block_index}
use cs.Sfs.Index.Single.{IsUsed}
use cs.Sfs.Short.{get_short}
use cs.Sfs.Readdir.{sfs_readdir}
use cs.Sfs.Write.Buffer.{get_or-zeros}
use cs.Sfs.Mkdir.Parent.{IsTidy}
use cs.Sfs.Mkdir.Listed.{sfs_readdir-sfs_mkdir}
use cs.Sfs.Path.{get_cwd_path, get_name, last_slash, cwd_before, name_after}
use cs.Sfs.Block.{block_read, block_write, block_size, zeros}
use cs.Sfs.Write.{copy_in}
use cs.Sfs.Create.{
  formatted, exceeds, add_size, add_entry, find_end, digits, entry_text, enter_name,
}
use cs.Sfs.Mkdir.{first_entries, enter_text_here, fill_directory, name_directory, sfs_mkdir}
use cs.Sfs.Mkdir.Found.{Makes, sfs_mkdir-Makes}
use cs.Sfs.Memory.{memory, memory-IsReliable, read_at, write_at, bytes, written}
use cs.Sfs.Fixture.{
  blank, store, empty, get_or-replicate, get_short-blank, new_path, roomy, root_of_new, caller,
  unknown, new_path-NoPercent,
}

-- The state that a call leaves, if it does not fault.
abbrev left_in : Option (ℤ × Fs (ℕ → ℕ)) → Fs (ℕ → ℕ)
left_in none = roomy
left_in (some r) = r.1

created :
    sfs_mkdir memory caller new_path 0o777 roomy
    ≡ some (pos 0, left_in (sfs_mkdir memory caller new_path 0o777 roomy))
unfolding sfs_mkdir name_directory fill_directory first_entries enter_text_here get_inode
    get_mapping get_block path_lookup scan same_text modify enter_name formatted find_end add_entry
    exceeds add_size entry_text digits get_cwd_path get_name last_slash cwd_before name_after
    get_block_index index_of block_read block_write read_at write_at bytes written copy_in
created = refl

sfs_mkdir-Makes_example :
    Makes memory new_path roomy (left_in (sfs_mkdir memory caller new_path 0o777 roomy))
sfs_mkdir-Makes_example =
    sfs_mkdir-Makes memory caller new_path 0o777 roomy
      (left_in (sfs_mkdir memory caller new_path 0o777 roomy)) unknown new_path-NoPercent created

get_short-zeros : (i : ℕ) → get_short zeros i ≡ pos 0
unfolding get_short
get_short-zeros i = rw (get_or-zeros block_size (2 * i), get_or-zeros block_size (2 * i + 1)) refl

get_short-missing :
    (i : ℕ) (old : List ℕ) → get_short (block_read memory blank minus_one old).1 i ≡ pos 0
unfolding block_read read_at
get_short-missing i old = get_short-zeros i

-- The directory without a block leads to no block, or to block 0, where an indirect block is missing.
index_of-IsUsed : (m : ℕ) → IsUsed memory memory-IsReliable store (index_of memory blank empty m)
unfolding index_of
index_of-IsUsed m = elim (Bool-cases (ltb m 10)) [
  | inl a ↦ rw (a, get_or-replicate minus_one 12 m minus_one (omega (arith, ltb→lt m 10 a))) tt
  | inr a ↦ elim (Bool-cases (ltb m 110)) [
    | inl b ↦ rw (a, b, get_short-missing (m - 10) memory.junk) refl
    | inr b ↦ elim (Bool-cases (ltb m 1110)) [
      | inl c ↦
          rw
            (
              a,
              b,
              c,
              get_short-missing ((m - 110) / 100) memory.junk,
              get_short-blank ((m - 110) % 100) (block_read memory blank minus_one memory.junk).1,
            )
            refl
      | inr c ↦ rw (a, b, c) tt
    ]
  ]
]

empty-IsTidy : IsTidy memory memory-IsReliable root_of_new.inode store
unfolding root_of_new
empty-IsTidy = record {
  used = index_of-IsUsed;
  single = tt;
  double = tt;
  subs = λ j h. rw (get_short-missing j memory.junk) refl;
}

disk_room : 11 * block_size ≤ memory-IsReliable.size blank
unfolding memory-IsReliable
disk_room = omega arith

sfs_readdir-sfs_mkdir_example :
    sfs_readdir memory new_path (left_in (sfs_mkdir memory caller new_path 0o777 roomy))
    ≡ some (pos 0, (46 ∷ []) ∷ (46 ∷ 46 ∷ []) ∷ [])
sfs_readdir-sfs_mkdir_example =
    sfs_readdir-sfs_mkdir memory memory-IsReliable caller new_path 0o777 roomy
      (left_in (sfs_mkdir memory caller new_path 0o777 roomy)) root_of_new unknown
      new_path-NoPercent empty-IsTidy disk_room created
