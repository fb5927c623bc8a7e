-- ===== src/Sfs/Mount.antt =====
-- sfs_init and sfs_destroy of sfs.c: the tables in memory and in the last blocks of the disk. How the
-- compiler lays a table out in memory is a parameter, as is what truncate makes of the file. `none` is
-- an access outside a table. The text that is written for the root is shorter than a block: the write
-- goes on with what stands behind it, the junk of the disk.
pub mod Blocks
pub mod Image
pub mod RoundTrip
pub mod Tests
use cs.Base.{
  ℕ, zero, suc, ◌+◌, ◌-◌, ◌*◌, ◌/◌, List, [], ◌∷◌, ◌++◌, ℤ, pos, negsuc, minus_one, Option, none,
  some, Bool, true, false, ◌==◌, take, drop, replicate, map, get_elem?, set,
}
use cs.Sfs.State.{
  Stat, Inode, PathMap, FileEntry, Store, Fs, max_nodes, max_link, num_blocks, free, at_int,
  put_int,
}
use cs.Sfs.Block.{Disk, block_read, block_write, block_size, zeros}
use cs.Sfs.Tables.{no_stat, modify, get_inode, get_mapping, get_block}
use cs.Sfs.Index.{set_block_index, write_block, ◌>>=◌}
use cs.Sfs.Path.{slash}
use cs.Sfs.File.{Caller}

-- The bytes in memory of a value of a C type, and the value that bytes are.
pub record Codec (A : Type 0) : Type 0 where
  pub size : ℕ
  pub encode : A → List ℕ
  pub decode : List ℕ → A

-- `key` is for an int64_t, read as unsigned, and `number` for an int.
pub record Layout : Type 0 where
  pub key : Codec ℕ
  pub inode_table : Codec (List Inode)
  pub name_table : Codec (List PathMap)
  pub disk_blocks : Codec (List ℕ)
  pub open_files : Codec (List FileEntry)
  pub number : Codec ℤ

-- The globals, but for cwd_inode, which every function sets before it reads it.
pub record Mounted (F : Type 0) : Type 0 where
  pub fs : Fs F
  pub root_inode : ℤ
  pub root_block : ℤ
  pub system_block : ℕ

-- `KEY`
abbrev pub key_val : ℕ
key_val = 0xA7C4144BEF51B825

unfoldable pub reserve : Layout → ℕ
reserve l =
    l.key.size
    + l.inode_table.size
    + l.name_table.size
    + l.disk_blocks.size
    + l.open_files.size
    + 2 * l.number.size

-- One block more than the tables fill, where they fill whole blocks.
unfoldable pub reserve_blocks : Layout → ℕ
unfolding reserve
reserve_blocks l = (reserve l + block_size) / block_size

-- What sfs_destroy copies one behind the other.
unfoldable pub image : {F : Type 0} → Layout → Mounted F → List ℕ
image l m =
    l.key.encode key_val
    ++ (l.inode_table.encode m.fs.inode_table
        ++ (l.name_table.encode m.fs.name_table
            ++ (l.disk_blocks.encode m.fs.store.disk_blocks
                ++ (l.open_files.encode m.fs.open_files
                    ++ (l.number.encode m.root_inode ++ l.number.encode m.root_block)))))

-- The value at the start of a buffer.
unfoldable pub read_as : {A : Type 0} → Codec A → List ℕ → A
read_as c buf = c.decode (take c.size buf)

-- The root's attributes, with `size` for its size.
pub root_stat : Caller → ℕ → Stat
root_stat c size = record {
  st_mode = 0o40777;
  st_nlink = 2;
  st_uid = c.uid;
  st_gid = c.gid;
  st_size = pos size;
  st_blocks = 1;
  st_atime = c.now;
  st_mtime = c.now;
  st_ctime = c.now;
}

-- `./0/../0`
abbrev pub root_text : List ℕ
root_text = 46 ∷ slash ∷ 48 ∷ slash ∷ 46 ∷ 46 ∷ slash ∷ 48 ∷ []

module _ (d : Disk) where
  -- Writes a buffer of `n` blocks from block `b` on.
  unfoldable pub write_blocks : ℕ → ℕ → List ℕ → d.File → d.File
  write_blocks zero b buf f = f
  write_blocks (suc n) b buf f =
      write_blocks n (b + 1) (drop block_size buf) (block_write d f (pos b) (take block_size buf)).1

  unfoldable pub read_blocks : ℕ → ℕ → d.File → List ℕ
  read_blocks zero b f = []
  read_blocks (suc n) b f = (block_read d f (pos b) d.junk).1 ++ read_blocks n (b + 1) f

  -- The tables after memset.
  pub blank_tables : d.File → Fs d.File
  blank_tables f = record {
    store = record { disk = f; disk_blocks = replicate num_blocks free };
    inode_table =
        replicate max_nodes (record { avail = 0; stat = no_stat; blocks = replicate 12 (pos 0) });
    name_table = replicate max_link (record { avail = 0; st_ino = pos 0; path = [] });
    open_files = replicate max_link (record { refcnt = 0; st_ino = minus_one; pos = 0 });
  }

  -- A new file system on an empty disk. The entries of the root go to block 0.
  unfoldable pub new_mount : Caller → ℕ → d.File → Option (Mounted d.File)
  unfolding root_stat blank_tables
  new_mount c b f =
      let s = blank_tables f in
      let (inode, inodes) = get_inode s.inode_table in
      let (mapping, names) = get_mapping s.name_table in
      at_int inodes inode >>= λ n. at_int names mapping >>= λ m.
      get_block s.store.disk_blocks >>= λ r.
      set_block_index d
        (record n { stat = root_stat c block_size; blocks = replicate 12 minus_one }) (pos 0) r.0
        (record (s.store) { disk_blocks = r.1 })
      >>= λ x.
          let s1 = write_block d x.1 (pos 0) zeros in
          let s2 = write_block d s1 (pos 0) (take block_size (root_text ++ 0 ∷ d.junk)) in
          some (record {
            fs = record {
              store = s2;
              inode_table = put_int inodes inode (record (x.0) { stat = root_stat c 9 });
              name_table = put_int names mapping (record m { st_ino = inode; path = slash ∷ [] });
              open_files = s.open_files;
            };
            root_inode = inode;
            root_block = r.0;
            system_block = b;
          })

module _ (d : Disk) (l : Layout) where
  -- The buffer of sfs_destroy, to its end.
  unfoldable pub dump : Mounted d.File → List ℕ
  unfolding reserve_blocks image
  dump m = take (reserve_blocks l * block_size) (image l m ++ d.junk)

  -- The disk that sfs_destroy leaves.
  unfoldable pub sfs_destroy : Mounted d.File → d.File
  unfolding dump write_blocks
  sfs_destroy m = write_blocks d (reserve_blocks l) m.system_block (dump m) m.fs.store.disk

  -- The first block from block `n` down that starts with the key.
  unfoldable pub find_key : ℕ → d.File → List ℕ → Option ℕ
  unfolding read_as
  find_key zero f buf = none
  find_key (suc n) f buf =
      let buf' = (block_read d f (pos (suc n)) buf).1 in
      elim (read_as l.key buf' == key_val) [ true ↦ some (suc n) | false ↦ find_key n f buf' ]

  -- The tables that a buffer holds, for a disk with the key in block `b`.
  unfoldable pub load : ℕ → List ℕ → d.File → Mounted d.File
  unfolding read_as
  load b buf f =
      let inodes = drop l.key.size buf in
      let names = drop l.inode_table.size inodes in
      let blocks = drop l.name_table.size names in
      let files = drop l.disk_blocks.size blocks in
      let root = drop l.open_files.size files in
      record {
        fs = record {
          store = record { disk = f; disk_blocks = read_as l.disk_blocks blocks };
          inode_table = read_as l.inode_table inodes;
          name_table = read_as l.name_table names;
          open_files = read_as l.open_files files;
        };
        root_inode = read_as l.number root;
        root_block = read_as l.number (drop l.number.size root);
        system_block = b;
      }

  -- The part of sfs_init behind the search. The tables take fewer blocks than the disk has.
  unfoldable pub open_mount :
      Caller → (d.File → d.File) → d.File → Option ℕ → Option (Mounted d.File)
  open_mount c truncate f (some b) = some (load b (read_blocks d (reserve_blocks l) b f) f)
  open_mount c truncate f none = new_mount d c (num_blocks - reserve_blocks l) (truncate f)

  -- `truncate` gives the file 16 MB.
  unfoldable pub sfs_init : Caller → (d.File → d.File) → d.File → Option (Mounted d.File)
  unfolding open_mount
  sfs_init c truncate f = open_mount c truncate f (find_key num_blocks f d.junk)
