-- ===== src/Sfs/Create/Opened.antt =====
-- The file that sfs_create has made is open and empty, and can be written to.
use cs.Base.{
  ℕ, ◌*◌, ◌≤◌, ◌<◌, ◌≡◌, ◌≢◌, refl, inl, inr, ap, subst, sym, ◌∙◌, List, [], ℤ, pos, negsuc,
  minus_one, some, length, set, get_elem?, replicate, get_elem?-set_ne, get_or, arith,
}
use cs.Sfs.State.{Inode, Store, Fs, allocd, free, max_link}
use cs.Sfs.Block.{Disk, IsReliable, block_size}
use cs.Sfs.Tables.{modify, get_inode, fresh_inode, get_mapping, get_fh, free_inode, path_lookup}
use cs.Sfs.Tables.Alloc.{get_elem?-modify_self, get_elem?-modify_ne}
use cs.Sfs.Index.{entry}
use cs.Sfs.File.{Caller}
use cs.Sfs.Path.{get_name}
use cs.Sfs.Write.Grow.{IsGrowable}
use cs.Sfs.Write.Refine.{HasFile}
use cs.Sfs.Create.{
  new_stat, enter_text, entry_text, enter_name, enter_parent, name_file, sfs_create,
}
use cs.Sfs.Create.Room.{NeverShrinks, HasRoom, sfs_create-HasRoom}
use cs.Sfs.Create.Found.{sfs_create-Creates}
use cs.Sfs.Create.Steps.{WhereSome, WhereSome-bind, WhereSome-then, WhereSome-some}
use cs.Sfs.Create.Names.{NoPercent, named, get_mapping-cases, enter_name-gives}
use cs.Sfs.Create.Directory.{
  HasDirectory, HasDirectory-named, HasDirectory-same, number-ne, get_inode-free,
}

module _ (d : Disk) where
  -- Entering a name changes no other inode than that of the directory.
  enter_parent-spares :
      (path : List ℕ) (i : ℕ) (s : Fs d.File) (h : HasDirectory s path)
      → h.number ≢ i
      → WhereSome
          (λ s'. get_elem? s'.inode_table i ≡ get_elem? s.inode_table i)
          (enter_parent d path i s)
  unfolding enter_parent
  enter_parent-spares path i s h n =
      let P : Fs d.File → Type 0 = λ s'. get_elem? s'.inode_table i ≡ get_elem? s.inode_table i in
      rw (h.is_cwd, h.is_found, h.is_entry, h.names, h.is_inode)
        (WhereSome-then P (get_name path) _ (λ name.
          WhereSome-then P (enter_text d (entry_text name i) h.inode s.store) _
            (λ x. get_elem?-set_ne s.inode_table x.0 n)))

  name_file-spares :
      (path : List ℕ) (fh i : ℕ) (s : Fs d.File) (h : HasDirectory s path)
      → path_lookup s.name_table path ≡ minus_one
      → NoPercent path
      → h.number ≢ i
      → WhereSome
          (λ r. r.0 ≡ pos 0 → get_elem? r.1.inode_table i ≡ get_elem? s.inode_table i)
          (name_file d path fh i s)
  unfolding name_file
  name_file-spares path fh i s h e plain n = elim (get_mapping-cases s.name_table) [
    | inl g ↦
        rw (name_file, g)
          (WhereSome-then _ (free_inode d s (pos i)) _ (λ s' z. absurd (ground arith)))
    | inr (k, l, g) ↦
        let g0 : (get_mapping s.name_table).0 ≡ pos k = ap (λ r. r.0) g in
        let g1 : (get_mapping s.name_table).1
            ≡ modify s.name_table k (λ m. record m { avail = allocd }) =
          ap (λ r. r.1) g in
        let (h', number, inode) = HasDirectory-named path k i s h e g0 in
        rw (name_file, g0, g1)
          (WhereSome-bind _ _
            (enter_name (modify s.name_table k (λ m. record m { avail = allocd })) k path i) _
            (enter_name-gives _ k path i plain)
            (λ t q.
              WhereSome-bind _ _ (enter_parent d path i (record s { name_table = t })) _
                (subst
                  (λ t.
                    WhereSome (λ s'. get_elem? s'.inode_table i ≡ get_elem? s.inode_table i)
                      (enter_parent d path i (record s { name_table = t })))
                  (sym q)
                  (enter_parent-spares path i
                    (record s { name_table = named s.name_table k path i }) h'
                    (λ x. n (sym number ∙ x))))
                (λ s' u z. u)))
  ]

  -- The inode that sfs_create takes is the one that the new file has, without a block.
  abbrev fresh : Caller → ℕ → Inode → Inode
  fresh c mode n = record (fresh_inode n) { stat = new_stat d c mode }

  sfs_create-inode :
      (c : Caller) (path : List ℕ) (mode i : ℕ) (s : Fs d.File) (n : Inode)
      (h : HasDirectory s path)
      → path_lookup s.name_table path ≡ minus_one
      → NoPercent path
      → (get_inode s.inode_table).0 ≡ pos i
      → get_elem? s.inode_table i ≡ some n
      → n.avail ≡ free
      → (get_inode s.inode_table).1 ≡ modify s.inode_table i fresh_inode
      → WhereSome
          (λ r. r.0 ≡ pos 0 → get_elem? r.2.inode_table i ≡ some (fresh c mode n))
          (sfs_create d c path mode s)
  unfolding sfs_create
  sfs_create-inode c path mode i s n h e plain q found is_free table = go (get_fh s.open_files) refl
    where
      inodes : List Inode
      inodes =
          modify (modify s.inode_table i fresh_inode) i (λ n. record n { stat = new_stat d c mode })

      at : get_elem? inodes i ≡ some (fresh c mode n)
      at =
          get_elem?-modify_self (modify s.inode_table i fresh_inode) i _ (fresh_inode n)
            (get_elem?-modify_self s.inode_table i fresh_inode n found)

      other : h.number ≢ i
      other = number-ne path s h i n found is_free

      opened : ℕ → Fs d.File
      opened fh = record s {
        inode_table = inodes;
        open_files = set s.open_files fh (record { refcnt = 1; st_ino = pos i; pos = 0 });
      }

      go :
          (z : ℤ)
          → get_fh s.open_files ≡ z
          → WhereSome
              (λ r. r.0 ≡ pos 0 → get_elem? r.2.inode_table i ≡ some (fresh c mode n))
              (sfs_create d c path mode s)
      go (negsuc m) p = rw (sfs_create, e, p) tt
      go (pos fh) p =
          let (h', number, inode) = HasDirectory-same path s (opened fh) h refl (
            get_elem?-modify_ne _ i h.number _ (λ x. other (sym x))
            ∙ get_elem?-modify_ne s.inode_table i h.number _ (λ x. other (sym x))) in
          rw (sfs_create, e, p, q, table)
            (WhereSome-bind (λ r. r.0 ≡ pos 0 → get_elem? r.1.inode_table i ≡ get_elem? inodes i) _
              (name_file d path fh i (opened fh)) _
              (name_file-spares path fh i (opened fh) h' e plain (λ x. other (sym number ∙ x)))
              (λ r keeps z. keeps z ∙ at))

module _ (d : Disk) (ok : IsReliable d) where
  -- A file without a block can be given blocks.
  blank-IsGrowable :
      (inode : Inode) (s : Store d.File)
      → inode.blocks ≡ replicate 12 minus_one
      → length s.disk_blocks * block_size ≤ ok.size s.disk
      → IsGrowable d ok inode 0 s
  blank-IsGrowable inode s e room =
      let e10 : entry inode 10 ≡ minus_one = ap (λ t. get_or t 10 minus_one) e in
      let e11 : entry inode 11 ≡ minus_one = ap (λ t. get_or t 11 minus_one) e in
      record {
        apart = record {
          few = omega arith;
          present = λ m h. absurd (omega arith);
          single = rw e10 tt;
          double = rw e11 tt;
          subs = λ j h. absurd (omega arith);
          distinct = λ m k b hm. absurd (omega arith);
          ne_single = λ m h. absurd (omega arith);
          ne_double = λ m h. absurd (omega arith);
          ne_subs = λ m j h. absurd (omega arith);
        };
        entries = ap length e;
        covers = room;
        used = λ m b h. absurd (omega arith);
        single = rw e10 tt;
        double = rw e11 tt;
      }

  -- Where no entry of the name table holds the path, which has no `%`, but one in use, with an inode in use,
  -- holds its directory, and the disk, which no write makes shorter, has room for all blocks of the table:
  -- the handle that sfs_create gives with the result 0 has an empty file open, which sfs_write and
  -- sfs_read work on.
  pub sfs_create-HasFile :
      (c : Caller) (path : List ℕ) (mode fh : ℕ) (s s' : Fs d.File)
      → path_lookup s.name_table path ≡ minus_one
      → NoPercent path
      → HasDirectory s path
      → sfs_create d c path mode s ≡ some (pos 0, pos fh, s')
      → fh < max_link
      → NeverShrinks d ok
      → HasRoom d ok s.store
      → HasFile d ok s' fh []
  unfolding fresh_inode
  sfs_create-HasFile c path mode fh s s' e plain h r lt grows before =
      let (i, k, gi, gf, same, leads, opened, _, _, _, _) =
        sfs_create-Creates d c path mode (pos fh) s s' e plain r in
      let (n, found, is_free, table) = get_inode-free s.inode_table i gi in
      let at =
        WhereSome-some (λ r. r.0 ≡ pos 0 → get_elem? r.2.inode_table i ≡ some (fresh d c mode n))
          (sfs_create d c path mode s) (pos 0, pos fh, s') r
          (sfs_create-inode d c path mode i s n h e plain gi found is_free table) refl in
      let room : HasRoom d ok s'.store =
        WhereSome-some (λ r. r.0 ≡ pos 0 → HasRoom d ok r.2.store) (sfs_create d c path mode s)
          (pos 0, pos fh, s') r (sfs_create-HasRoom d ok grows c path mode s e before) refl in
      let handle : k ≡ fh = ground arith in
      record {
        e = record { refcnt = 1; st_ino = pos i; pos = 0 };
        i = i;
        inode = fresh d c mode n;
        in_range = lt;
        opened =
            subst
              (λ k.
                get_elem? s'.open_files k ≡ some (record { refcnt = 1; st_ino = pos i; pos = 0 }))
              handle opened;
        names = refl;
        found = at;
        file = record {
          size = refl;
          blocks = refl;
          growable = blank-IsGrowable (fresh d c mode n) s'.store refl room;
        };
        content = λ k h. absurd (omega arith);
      }
