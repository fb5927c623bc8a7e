-- ===== src/Sfs/File.antt =====
-- sfs_getattr, sfs_open and sfs_release of sfs.c.
pub mod Lookup
use cs.Base.{
  ℕ, zero, suc, ◌+◌, List, [], ◌∷◌, ℤ, pos, negsuc, minus_one, Option, none, some, Bool, true,
  false, is_neg, ltb, eq_int, if◌then◌else◌, get_elem?, set, ◌/◌, ◌%◌, ◌==◌,
}
use cs.Sfs.State.{
  Stat, Inode, PathMap, FileEntry, Store, Fs, at_int, put_int, max_link, enoent, eacces, eisdir,
  enomem,
}
use cs.Sfs.Tables.{path_lookup, get_fh, free_fh, no_stat}

-- What the system calls give: getuid, getgid, time, and access for reading the
-- path, whose manual has it return 0 or -1.
pub record Caller : Type 0 where
  pub uid : ℕ
  pub gid : ℕ
  pub now : ℕ
  pub access : ℤ

-- `S_IFREG | S_IRWXU | S_IRWXG | S_IRWXO`
abbrev pub plain_file : ℕ
plain_file = 0o100777

-- `S_ISDIR(mode)`
abbrev pub is_dir : ℕ → Bool
is_dir mode = mode / 0o10000 % 16 == 4

-- What a path that is not there is said to be.
pub missing_stat : Caller → Stat
missing_stat c = record no_stat {
  st_mode = plain_file;
  st_nlink = 1;
  st_uid = c.uid;
  st_gid = c.gid;
  st_atime = c.now;
  st_mtime = c.now;
  st_ctime = c.now;
}

-- The part of sfs_open that takes a handle: what it returns, the handle, the open files.
pub open_handle : List FileEntry → ℤ → ℤ → ℤ × Option ℕ × List FileEntry
open_handle t st_ino (negsuc n) = (enomem, none, t)
open_handle t st_ino (pos fh) =
    (pos fh, some fh, set t fh (record { refcnt = 1; st_ino = st_ino; pos = 0 }))

module _ {F : Type 0} where
  -- The inode is read at the number of the entry of the name table, not at the inode's number.
  pub sfs_getattr : Caller → Fs F → List ℕ → Option (ℤ × Stat)
  unfolding missing_stat
  sfs_getattr c s path = elim (path_lookup s.name_table path) [
    | negsuc n ↦ some (enoent, missing_stat c)
    | pos mapping ↦ (elim (get_elem? s.inode_table mapping) [
      | none ↦ none
      | some inode ↦ some (pos 0, inode.stat)
    ])
  ]

  pub open_inode : Caller → Fs F → ℤ → Inode → ℤ × Option ℕ × Fs F
  unfolding open_handle
  open_inode c s st_ino inode =
      if eq_int c.access (pos 13)
      then (eacces, none, s)
      else if is_dir inode.stat.st_mode
      then (eisdir, none, s)
      else (let (r, fh, t) = open_handle s.open_files st_ino (get_fh s.open_files) in
          (r, fh, record s { open_files = t }))

  pub sfs_open : Caller → Fs F → List ℕ → Option (ℤ × Option ℕ × Fs F)
  unfolding open_inode
  sfs_open c s path = elim (path_lookup s.name_table path) [
    | negsuc n ↦ some (enoent, none, s)
    | pos mapping ↦ (elim (get_elem? s.name_table mapping) [
      | none ↦ none
      | some m ↦ (elim (at_int s.inode_table m.st_ino) [
        | none ↦ none
        | some inode ↦ some (open_inode c s m.st_ino inode)
      ])
    ])
  ]

  -- `fh` is not tested.
  pub sfs_release : Fs F → ℕ → Option (ℤ × Fs F)
  sfs_release s fh = elim (get_elem? s.open_files fh) [
    | none ↦ none
    | some e ↦ some (pos 0, record s { open_files = free_fh s.open_files fh })
  ]
