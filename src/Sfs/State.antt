-- ===== src/Sfs/State.antt =====
-- The tables of asst3/assignment3/src/sfs.c and the structs of params.h. Text is a list of bytes
-- without its final 0.
use cs.Base.{ℕ, List, ℤ, Option, none, pos, negsuc, get_elem?, set}

-- `struct stat`, the fields that the code uses.
pub record Stat : Type 0 where
  pub st_mode : ℕ
  pub st_nlink : ℕ
  pub st_uid : ℕ
  pub st_gid : ℕ
  pub st_size : ℤ
  pub st_blocks : ℕ
  pub st_atime : ℕ
  pub st_mtime : ℕ
  pub st_ctime : ℕ

-- `inode_t`: `blocks` has 12 entries, the last two for the indirect blocks.
pub record Inode : Type 0 where
  pub avail : ℕ
  pub stat : Stat
  pub blocks : List ℤ

-- `path_map_t`
pub record PathMap : Type 0 where
  pub avail : ℕ
  pub st_ino : ℤ
  pub path : List ℕ

-- `file_entry_t`
pub record FileEntry : Type 0 where
  pub refcnt : ℕ
  pub st_ino : ℤ
  pub pos : ℕ

-- What the block functions change: the disk and the table of used blocks.
pub record Store (F : Type 0) : Type 0 where
  pub disk : F
  pub disk_blocks : List ℕ

pub record Fs (F : Type 0) : Type 0 where
  pub store : Store F
  pub inode_table : List Inode
  pub name_table : List PathMap
  pub open_files : List FileEntry

abbrev pub max_nodes : ℕ
max_nodes = 128

abbrev pub max_link : ℕ
max_link = 128

abbrev pub max_file_blocks : ℕ
max_file_blocks = 1110

abbrev pub num_blocks : ℕ
num_blocks = 32768

abbrev pub allocd : ℕ
allocd = 1

abbrev pub free : ℕ
free = 0

-- `-ENOENT` and the like.
abbrev pub enoent : ℤ
enoent = negsuc 1

abbrev pub ebadf : ℤ
ebadf = negsuc 8

abbrev pub enomem : ℤ
enomem = negsuc 11

abbrev pub eacces : ℤ
eacces = negsuc 12

abbrev pub eisdir : ℤ
eisdir = negsuc 20

abbrev pub efbig : ℤ
efbig = negsuc 26

-- `EOF`
abbrev pub eof : ℤ
eof = negsuc 0

-- `table[i]`, `none` for an access out of bounds.
abbrev pub at_int {ℓ} : {A : Type ℓ} → List A → ℤ → Option A
at_int xs (pos n) = get_elem? xs n
at_int xs (negsuc n) = none

-- `table[i] = x` at an index that is in bounds.
abbrev pub put_int {ℓ} : {A : Type ℓ} → List A → ℤ → A → List A
put_int xs (pos n) x = set xs n x
put_int xs (negsuc n) x = xs
