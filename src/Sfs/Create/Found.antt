-- ===== src/Sfs/Create/Found.antt =====
-- A path that sfs_create has entered is found again.
use cs.Base.{
  true, is_neg, ℕ, ◌≡◌, refl, inl, inr, ap, subst, sym, ◌∙◌, List, ℤ, pos, negsuc, minus_one, some,
  set, get_elem?, get_elem?-set_self, arith,
}
use cs.Sfs.State.{Inode, FileEntry, Fs, allocd, free, at_int}
use cs.Sfs.Block.{Disk}
use cs.Sfs.Tables.{modify, get_inode, get_mapping, get_fh, free_inode, path_lookup}
use cs.Sfs.File.{Caller}
use cs.Sfs.Path.{get_cwd_path, get_name}
use cs.Sfs.Create.{
  new_stat, enter_text, entry_text, enter_name, enter_parent, name_file, sfs_create,
}
use cs.Sfs.Create.Directory.{get_inode-free, get_fh-free}
use cs.Sfs.Create.Names.{
  get_fh-length, get_mapping-cases, enter_name-gives, NoPercent, Leads, named-Leads,
}
use cs.Sfs.Create.Steps.{WhereSome, WhereSome-bind, WhereSome-then, WhereSome-some}

module _ (d : Disk) where
  -- The names and the handles are the same.
  abbrev Keeps : Fs d.File → Fs d.File → Type 0
  Keeps s s' = (s'.name_table ≡ s.name_table) × (s'.open_files ≡ s.open_files)

  enter_parent-Keeps :
      (path : List ℕ) (inode : ℕ) (s : Fs d.File)
      → WhereSome (Keeps s) (enter_parent d path inode s)
  unfolding enter_parent
  enter_parent-Keeps path inode s = WhereSome-then (Keeps s) (get_cwd_path path) _ (λ r.
      WhereSome-then (Keeps s) (at_int s.name_table (path_lookup s.name_table r.1)) _ (λ m.
        WhereSome-then (Keeps s) (at_int s.inode_table m.st_ino) _ (λ cwd.
          WhereSome-then (Keeps s) (get_name path) _ (λ name.
            WhereSome-then (Keeps s) (enter_text d (entry_text name inode) cwd s.store) _
              (λ x. (refl, refl))))))

  -- With the result 0 the path leads to the inode, and the handles are the same.
  abbrev Enters : List ℕ → ℕ → Fs d.File → ℤ × Fs d.File → Type 0
  Enters path inode s r =
      r.0 ≡ pos 0 → Leads r.1.name_table path inode × (r.1.open_files ≡ s.open_files)

  name_file-Enters :
      (path : List ℕ) (fh inode : ℕ) (s : Fs d.File)
      → path_lookup s.name_table path ≡ minus_one
      → NoPercent path
      → WhereSome (Enters path inode s) (name_file d path fh inode s)
  unfolding name_file
  name_file-Enters path fh inode s e plain = elim (get_mapping-cases s.name_table) [
    | inl g ↦
        rw (name_file, g)
          (WhereSome-then _ (free_inode d s (pos inode)) _ (λ s' z. absurd (ground arith)))
    | inr (k, l, g) ↦
        let g0 : (get_mapping s.name_table).0 ≡ pos k = ap (λ r. r.0) g in
        let g1 : (get_mapping s.name_table).1
            ≡ modify s.name_table k (λ m. record m { avail = allocd }) =
          ap (λ r. r.1) g in
        rw (name_file, g0, g1)
          (WhereSome-bind _ _
            (enter_name (modify s.name_table k (λ m. record m { avail = allocd })) k path inode) _
            (enter_name-gives _ k path inode plain)
            (λ t q.
              WhereSome-bind _ _ (enter_parent d path inode (record s { name_table = t })) _
                (enter_parent-Keeps path inode (record s { name_table = t }))
                (λ s' u z. (
                  subst (λ t. Leads t path inode) (sym (u.0 ∙ q))
                      (named-Leads s.name_table k path inode l e),
                  u.1,
                ))))
  ]

  -- The path leads to the inode that was free, and the handle that is given is open on it.
  abbrev pub Creates : List ℕ → Fs d.File → ℤ → Fs d.File → Type 0
  Creates path s fh s' =
      (i : ℕ) × (h : ℕ) × ((get_inode s.inode_table).0 ≡ pos i)
      × (get_fh s.open_files ≡ pos h)
      × (fh ≡ pos h)
      × Leads s'.name_table path i
      × (get_elem? s'.open_files h ≡ some (record { refcnt = 1; st_ino = pos i; pos = 0 }))
      × ((n : Inode) × (get_elem? s.inode_table i ≡ some n) × (n.avail ≡ free))
      × (e : FileEntry) × (get_elem? s.open_files h ≡ some e)
      × (is_neg e.st_ino ≡ true)

  abbrev MayCreate : List ℕ → Fs d.File → ℤ × ℤ × Fs d.File → Type 0
  MayCreate path s r = r.0 ≡ pos 0 → Creates path s r.1 r.2

  sfs_create-MayCreate :
      (c : Caller) (path : List ℕ) (mode : ℕ) (s : Fs d.File)
      → path_lookup s.name_table path ≡ minus_one
      → NoPercent path
      → WhereSome (MayCreate path s) (sfs_create d c path mode s)
  unfolding sfs_create
  sfs_create-MayCreate c path mode s e plain =
      go (get_fh s.open_files) ((get_inode s.inode_table).0) refl refl
    where
      go :
          (z w : ℤ)
          → get_fh s.open_files ≡ z
          → (get_inode s.inode_table).0 ≡ w
          → WhereSome (MayCreate path s) (sfs_create d c path mode s)
      go (negsuc n) w p q = rw (sfs_create, e, p) tt
      go (pos h) (negsuc n) p q = rw (sfs_create, e, p, q) tt
      go (pos h) (pos i) p q =
          rw (sfs_create, e, p, q)
            (WhereSome-bind (Enters path i opened) (MayCreate path s) (name_file d path h i opened)
              _ (name_file-Enters path h i opened e plain)
              (λ r enters z.
                let (l, o) = enters z in
                let (e', fe, ne) = get_fh-free s.open_files h p in
                (
                  i,
                  h,
                  q,
                  p,
                  refl,
                  l,
                  ap (λ t. get_elem? t h) o
                      ∙ get_elem?-set_self s.open_files h _ (get_fh-length s.open_files h p),
                  (let (n, f, a, _) = get_inode-free s.inode_table i q in (n, f, a)),
                  e',
                  fe,
                  ne,
                )))
        where
          opened : Fs d.File
          opened = record s {
            inode_table =
                modify ((get_inode s.inode_table).1) i (λ n. record n { stat = new_stat d c mode });
            open_files = set s.open_files h (record { refcnt = 1; st_ino = pos i; pos = 0 });
          }

  -- Where no entry of the name table holds the path, which has no `%`, sfs_create with the result 0 gives a
  -- handle whose entry had no inode, and which is open then, at byte 0, on an inode that was marked as free,
  -- and path_lookup finds the path, with the number of this inode.
  pub sfs_create-Creates :
      (c : Caller) (path : List ℕ) (mode : ℕ) (fh : ℤ) (s s' : Fs d.File)
      → path_lookup s.name_table path ≡ minus_one
      → NoPercent path
      → sfs_create d c path mode s ≡ some (pos 0, fh, s')
      → Creates path s fh s'
  sfs_create-Creates c path mode fh s s' e plain r =
      WhereSome-some (MayCreate path s) (sfs_create d c path mode s) (pos 0, fh, s') r
        (sfs_create-MayCreate c path mode s e plain) refl
