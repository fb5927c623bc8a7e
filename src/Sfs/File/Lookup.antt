-- ===== src/Sfs/File/Lookup.antt =====
-- What sfs_open and sfs_getattr give for a path.
use cs.Base.{ℕ, ◌≡◌, refl, List, ℤ, pos, some, false, eq_int, get_elem?, set, arith}
use cs.Sfs.State.{Inode, PathMap, FileEntry, Fs}
use cs.Sfs.Tables.{path_lookup, get_fh}
use cs.Sfs.File.{Caller, is_dir, sfs_getattr, open_handle, open_inode, sfs_open}

-- For a path that the name table holds, sfs_getattr gives the attributes of the inode whose number
-- is the place of the path in the name table, and does not read the inode's number there.
pub getattr_place :
    {F : Type 0} (c : Caller) (s : Fs F) (path : List ℕ) (i : ℕ) (inode : Inode)
    → path_lookup s.name_table path ≡ pos i
    → get_elem? s.inode_table i ≡ some inode
    → sfs_getattr c s path ≡ some (pos 0, inode.stat)
unfolding sfs_getattr
getattr_place c s path i inode h e = ground arith

open_handle-pos :
    (t : List FileEntry) (i : ℤ) (r : ℤ) (fh : ℕ)
    → r ≡ pos fh
    → open_handle t i r ≡ (pos fh, some fh, set t fh (record { refcnt = 1; st_ino = i; pos = 0 }))
unfolding open_handle
open_handle-pos t i r fh h = rw (h) refl

open_inode-file :
    {F : Type 0} (c : Caller) (s : Fs F) (i : ℤ) (fh : ℕ) (inode : Inode)
    → eq_int c.access (pos 13) ≡ false
    → is_dir inode.stat.st_mode ≡ false
    → get_fh s.open_files ≡ pos fh
    → open_inode c s i inode ≡ (
      pos fh,
      some fh,
      record s { open_files = set s.open_files fh (record { refcnt = 1; st_ino = i; pos = 0 }) },
    )
unfolding open_inode
open_inode-file c s i fh inode ha hd hf =
    rw (ha, hd, open_handle-pos s.open_files i (get_fh s.open_files) fh hf) refl

-- Opening a plain file that the name table holds, with a handle free and access not giving 13,
-- returns the number of the first free handle and not 0, gives the file that handle at position 0,
-- and changes no other table.
pub open_returns_handle :
    {F : Type 0} (c : Caller) (s : Fs F) (path : List ℕ) (i j fh : ℕ) (m : PathMap) (inode : Inode)
    → path_lookup s.name_table path ≡ pos i
    → get_elem? s.name_table i ≡ some m
    → m.st_ino ≡ pos j
    → get_elem? s.inode_table j ≡ some inode
    → eq_int c.access (pos 13) ≡ false
    → is_dir inode.stat.st_mode ≡ false
    → get_fh s.open_files ≡ pos fh
    → sfs_open c s path
      ≡ some (
        pos fh,
        some fh,
        record s {
          open_files = set s.open_files fh (record { refcnt = 1; st_ino = pos j; pos = 0 });
        },
      )
unfolding sfs_open
open_returns_handle c s path i j fh m inode h hm hj hi ha hd hf =
    rw (sfs_open, h, hm, hj, hi, hj, open_inode-file c s (pos j) fh inode ha hd hf) refl
