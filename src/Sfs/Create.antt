-- ===== src/Sfs/Create.antt =====
-- sfs_create of sfs.c. `none` is an access outside a table or a buffer.
pub mod Steps
pub mod Names
pub mod Room
pub mod Found
pub mod Directory
pub mod Opened
pub mod Tests
use cs.Base.{
  ℕ, zero, suc, ◌+◌, ◌-◌, ◌/◌, ◌%◌, ◌^◌, List, [], ◌∷◌, ◌++◌, ℤ, pos, negsuc, Option, none, some,
  Bool, false, ltb, ◌==◌, if◌then◌else◌, is_pos, length, set, take, drop,
}
use cs.Sfs.State.{Stat, Inode, PathMap, Store, Fs, at_int, put_int, enomem}
use cs.Sfs.Block.{Disk, block_read, block_size, zeros}
use cs.Sfs.Tables.{
  scan, modify, get_inode, get_mapping, get_block, get_fh, free_fh, free_inode, path_lookup,
}
use cs.Sfs.Index.{get_block_index, set_block_index, write_block, ◌>>=◌}
use cs.Sfs.Path.{get_cwd_path, get_name, slash}
use cs.Sfs.File.{Caller}
use cs.Sfs.Read.{to_short}
use cs.Sfs.Write.{copy_in}

abbrev pub eexist : ℤ
eexist = negsuc 16

abbrev pub max_path_len : ℕ
max_path_len = 128

-- The decimal digits of a number of at most `fuel` digits, before `rest`.
unfoldable pub digits : ℕ → ℕ → List ℕ → List ℕ
digits zero n rest = rest
digits (suc fuel) n rest =
    let more = digits fuel (n / 10) ((48 + n % 10) ∷ rest) in
    if n / 10 == 0 then (48 + n % 10) ∷ rest else more

-- `sprintf("/%s/%i", name, inode)`; an int has at most ten digits.
unfoldable pub entry_text : List ℕ → ℕ → List ℕ
unfolding digits
entry_text name inode = slash ∷ name ++ slash ∷ digits 10 inode []

-- What `sprintf` makes of a text as a format without arguments: `%%` stands for a `%`. Any other conversion
-- reads an argument that is not there.
unfoldable pub formatted : List ℕ → Option (List ℕ)
formatted [] = some []
formatted (c ∷ []) = if c == 37 then none else some (c ∷ [])
formatted (c ∷ b ∷ cs) =
    let percent = formatted cs >>= λ t. some (37 ∷ t) in
    let rest = formatted (b ∷ cs) >>= λ t. some (c ∷ t) in
    if c == 37 then (if b == 37 then percent else none) else rest

-- `sprintf(name_table[mapping].path, path)` with the number of the inode. The path is the format.
unfoldable pub enter_name : List PathMap → ℕ → List ℕ → ℕ → Option (List PathMap)
unfolding formatted modify
enter_name t mapping path inode = formatted path >>= λ text.
    if ltb (max_path_len - 1) (length text)
    then none
    else some (modify t mapping (λ m. record m { st_ino = pos inode; path = text }))

-- `st_size%BLOCK_SIZE + size > BLOCK_SIZE`, with the sign of a remainder in C.
unfoldable pub exceeds : ℤ → ℕ → Bool
exceeds (pos n) size = ltb block_size (n % block_size + size)
exceeds (negsuc n) size = ltb (block_size + suc n % block_size) size

unfoldable pub add_size : ℤ → ℕ → ℤ
add_size (pos n) size = pos (n + size)
add_size (negsuc n) size = if ltb n size then pos (size - suc n) else negsuc (n - size)

-- `st_size += size` and `st_nlink++`
unfoldable pub add_entry : ℕ → Inode → Inode
unfolding add_size
add_entry size n = record n {
  stat = record (n.stat) {
    st_size = add_size n.stat.st_size size;
    st_nlink = (n.stat.st_nlink + 1) % 2 ^ 64;
  };
}

module _ (d : Disk) where
  -- The block of the directory with the first 0, from block `i` on, whose content is `buf`: its
  -- number, the place, and the content. Past the last block of a file a block reads as zeros.
  unfoldable pub find_end : ℕ → d.File → Inode → ℕ → List ℕ → Option (ℕ × ℕ × List ℕ)
  unfolding scan
  find_end zero f inode i buf = none
  find_end (suc fuel) f inode i buf = elim (scan (λ b. b == 0) buf 0) [
    | some place ↦ some (i, place, buf)
    | none ↦ get_block_index d f inode (to_short (i + 1)) >>= λ b.
        find_end fuel f inode (i + 1) (block_read d f b buf).1
  ]

  -- The second half of the buffer goes to a new block of the directory.
  unfoldable pub spill : Inode → ℕ → List ℕ → Store d.File → Option (Inode × Store d.File)
  spill inode i rest s = do
    (block, blocks) ← get_block s.disk_blocks
    (inode', s') ←
        set_block_index d inode (to_short (i + 1)) block (record s { disk_blocks = blocks })
    some (inode', write_block d s' block rest)

  -- Enters a text into a directory.
  unfoldable pub enter_text : List ℕ → Inode → Store d.File → Option (Inode × Store d.File)
  unfolding find_end spill add_entry exceeds
  enter_text text inode s = do
    b ← get_block_index d s.disk inode (pos 0)
    (i, place, buf) ← find_end 1111 s.disk inode 0 (block_read d s.disk b zeros).1
    whole ← copy_in place (text ++ 0 ∷ []) (buf ++ d.junk)
    b' ← get_block_index d s.disk inode (to_short i)
    let s1 = write_block d s b' (take block_size whole)
    let size = length text + 1
    (inode', s2) ←
        if exceeds inode.stat.st_size size
        then spill inode i (drop block_size whole) s1
        else some (inode, s1)
    some (add_entry size inode', s2)

  -- Enters an inode's name into the directory of its path.
  unfoldable pub enter_parent : List ℕ → ℕ → Fs d.File → Option (Fs d.File)
  unfolding enter_text entry_text
  enter_parent path inode s = do
    (r, cwd_path) ← get_cwd_path path
    m ← at_int s.name_table (path_lookup s.name_table cwd_path)
    cwd ← at_int s.inode_table m.st_ino
    name ← get_name path
    (cwd', store) ← enter_text (entry_text name inode) cwd s.store
    some (record s { store = store; inode_table = put_int s.inode_table m.st_ino cwd' })

  abbrev pub new_stat : Caller → ℕ → Stat
  new_stat c mode = record {
    st_mode = mode;
    st_nlink = 1;
    st_uid = c.uid;
    st_gid = c.gid;
    st_size = pos 0;
    st_blocks = 0;
    st_atime = c.now;
    st_mtime = c.now;
    st_ctime = c.now;
  }

  -- The part for a handle and an inode that are free, once both are taken.
  unfoldable pub name_file : List ℕ → ℕ → ℕ → Fs d.File → Option (ℤ × Fs d.File)
  unfolding enter_name enter_parent
  name_file path fh inode s =
      let (mapping, names) = get_mapping s.name_table in
      elim mapping [
        | negsuc n ↦ free_inode d s (pos inode) >>= λ s'.
            some (enomem, record s' { open_files = free_fh s'.open_files fh })
        | pos m ↦ enter_name names m path inode >>= λ names'.
            enter_parent path inode (record s { name_table = names' }) >>= λ s'. some (pos 0, s')
      ]

  -- The result, the handle and the state. The handle -1, as an unsigned number, and the inode -1 are
  -- not turned away.
  unfoldable pub sfs_create : Caller → List ℕ → ℕ → Fs d.File → Option (ℤ × ℤ × Fs d.File)
  sfs_create c path mode s =
      if is_pos (path_lookup s.name_table path)
      then some (eexist, pos 0, s)
      else (elim (get_fh s.open_files) [
        | negsuc n ↦ none
        | pos fh ↦
            (let (inode, inodes) = get_inode s.inode_table in
              elim inode [
                | negsuc n ↦ none
                | pos i ↦
                    name_file path fh i (record s {
                      inode_table = modify inodes i (λ n. record n { stat = new_stat c mode });
                      open_files =
                          set s.open_files fh (record { refcnt = 1; st_ino = pos i; pos = 0 });
                    })
                    >>= λ r. some (r.0, pos fh, r.1)
              ])
      ])
