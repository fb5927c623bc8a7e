-- ===== src/Sfs/Mkdir/Found.antt =====
-- A path that sfs_mkdir has entered is found again.
use cs.Base.{
  ℕ, ◌≡◌, refl, inl, inr, ap, subst, sym, ◌∙◌, List, [], ◌∷◌, ◌++◌, ℤ, pos, negsuc, minus_one, none,
  some, set, get_elem?, arith,
}
use cs.Sfs.State.{Inode, Fs, allocd, free, at_int}
use cs.Sfs.Block.{Disk, zeros}
use cs.Sfs.Tables.{modify, get_inode, get_mapping, get_block, free_inode, path_lookup}
use cs.Sfs.Index.{get_block_index, write_block, set_entry, ◌>>=◌}
use cs.Sfs.Path.{get_cwd_path, get_name}
use cs.Sfs.File.{Caller}
use cs.Sfs.Write.{copy_in}
use cs.Sfs.Create.{entry_text, enter_name}
use cs.Sfs.Create.Steps.{WhereSome, WhereSome-bind, WhereSome-then, WhereSome-map, WhereSome-some}
use cs.Sfs.Create.Directory.{get_inode-free}
use cs.Sfs.Create.Names.{NoPercent, Leads, named-Leads, get_mapping-cases, enter_name-gives}
use cs.Sfs.Mkdir.{
  directory_stat, first_entries, enter_text_here, fill_directory, name_directory, sfs_mkdir,
}

module _ (d : Disk) where
  -- The names and the handles are the same.
  abbrev Keeps : Fs d.File → Fs d.File → Type 0
  Keeps s s' = (s'.name_table ≡ s.name_table) × (s'.open_files ≡ s.open_files)

  fill_directory-Keeps :
      (path : List ℕ) (inode : ℕ) (s : Fs d.File)
      → WhereSome (Keeps s) (fill_directory d path inode s)
  unfolding fill_directory
  fill_directory-Keeps path inode s = WhereSome-then (Keeps s) (get_cwd_path path) _ (λ r.
      WhereSome-then (Keeps s) (at_int s.name_table (path_lookup s.name_table r.1)) _
        (λ m. go m.st_ino))
    where
      go :
          (z : ℤ)
          → WhereSome (Keeps s) (elim z [
            | negsuc n ↦ none
            | pos parent ↦ get_elem? s.inode_table inode >>= λ n.
                copy_in 0 (first_entries inode parent ++ 0 ∷ []) zeros >>= λ buf.
                get_block_index d s.store.disk n (pos 0) >>= λ b.
                let s1 = write_block d s.store b buf in
                get_elem? s.inode_table parent >>= λ cwd. get_name path >>= λ name.
                enter_text_here d (entry_text name inode) cwd s1 >>= λ x.
                some (record s { store = x.1; inode_table = set s.inode_table parent x.0 })
          ])
      go (negsuc n) = tt
      go (pos parent) = WhereSome-then (Keeps s) (get_elem? s.inode_table inode) _ (λ n.
          WhereSome-then (Keeps s) (copy_in 0 (first_entries inode parent ++ 0 ∷ []) zeros) _
            (λ buf. WhereSome-then (Keeps s) (get_block_index d s.store.disk n (pos 0)) _ (λ b.
              WhereSome-then (Keeps s) (get_elem? s.inode_table parent) _ (λ cwd.
                WhereSome-then (Keeps s) (get_name path) _ (λ name.
                  WhereSome-then (Keeps s)
                    (enter_text_here d (entry_text name inode) cwd (write_block d s.store b buf)) _
                    (λ x. (refl, refl)))))))

  -- With the result 0 the path leads to the inode, and the handles are the same.
  abbrev Enters : List ℕ → ℕ → Fs d.File → ℤ × Fs d.File → Type 0
  Enters path inode s r =
      r.0 ≡ pos 0 → Leads r.1.name_table path inode × (r.1.open_files ≡ s.open_files)

  name_directory-Enters :
      (path : List ℕ) (inode : ℕ) (s : Fs d.File)
      → path_lookup s.name_table path ≡ minus_one
      → NoPercent path
      → WhereSome (Enters path inode s) (name_directory d path inode s)
  unfolding name_directory
  name_directory-Enters path inode s e plain = elim (get_mapping-cases s.name_table) [
    | inl g ↦
        rw (name_directory, g)
          (WhereSome-then _ (free_inode d s (pos inode)) _ (λ s' z. absurd (ground arith)))
    | inr (k, l, g) ↦
        let g0 : (get_mapping s.name_table).0 ≡ pos k = ap (λ r. r.0) g in
        let g1 : (get_mapping s.name_table).1
            ≡ modify s.name_table k (λ m. record m { avail = allocd }) =
          ap (λ r. r.1) g in
        rw (name_directory, g0, g1)
          (WhereSome-bind _ _
            (enter_name (modify s.name_table k (λ m. record m { avail = allocd })) k path inode) _
            (enter_name-gives _ k path inode plain)
            (λ t q.
              WhereSome-bind _ _ (fill_directory d path inode (record s { name_table = t })) _
                (fill_directory-Keeps path inode (record s { name_table = t }))
                (λ s' u z. (
                  subst (λ t. Leads t path inode) (sym (u.0 ∙ q))
                      (named-Leads s.name_table k path inode l e),
                  u.1,
                ))))
  ]

  -- The path leads to the inode that was free, and the handles are the same.
  abbrev pub Makes : List ℕ → Fs d.File → Fs d.File → Type 0
  Makes path s s' =
      (i : ℕ) × ((get_inode s.inode_table).0 ≡ pos i)
      × Leads s'.name_table path i
      × (s'.open_files ≡ s.open_files)
      × (n : Inode) × (get_elem? s.inode_table i ≡ some n)
      × (n.avail ≡ free)

  abbrev MayMake : List ℕ → Fs d.File → ℤ × Fs d.File → Type 0
  MayMake path s r = r.0 ≡ pos 0 → Makes path s r.1

  sfs_mkdir-MayMake :
      (c : Caller) (path : List ℕ) (mode : ℕ) (s : Fs d.File)
      → path_lookup s.name_table path ≡ minus_one
      → NoPercent path
      → WhereSome (MayMake path s) (sfs_mkdir d c path mode s)
  unfolding sfs_mkdir
  sfs_mkdir-MayMake c path mode s e plain = go ((get_inode s.inode_table).0) refl
    where
      made : ℕ → ℤ × List ℕ → Fs d.File
      made i r = record s {
        store = record (s.store) { disk_blocks = r.1 };
        inode_table =
            modify ((get_inode s.inode_table).1) i
              (λ n. set_entry (record n { stat = directory_stat c mode }) 0 r.0);
      }

      go :
          (w : ℤ)
          → (get_inode s.inode_table).0 ≡ w
          → WhereSome (MayMake path s) (sfs_mkdir d c path mode s)
      go (negsuc n) q = rw (sfs_mkdir, e, q) tt
      go (pos i) q =
          rw (sfs_mkdir, e, q)
            (WhereSome-then (MayMake path s) (get_block s.store.disk_blocks) _ (λ r.
              WhereSome-map (Enters path i (made i r)) (MayMake path s)
                (name_directory d path i (made i r))
                (name_directory-Enters path i (made i r) e plain)
                (λ x enters z.
                  let (l, o) = enters z in
                  let (n, f, a, _) = get_inode-free s.inode_table i q in (i, q, l, o, n, f, a))))

  -- Where no entry of the name table holds the path, which has no `%`, sfs_mkdir with the result 0 has
  -- taken an inode that was marked as free, path_lookup finds the path, with the number of this inode, and all handles are as before.
  pub sfs_mkdir-Makes :
      (c : Caller) (path : List ℕ) (mode : ℕ) (s s' : Fs d.File)
      → path_lookup s.name_table path ≡ minus_one
      → NoPercent path
      → sfs_mkdir d c path mode s ≡ some (pos 0, s')
      → Makes path s s'
  sfs_mkdir-Makes c path mode s s' e plain r =
      WhereSome-some (MayMake path s) (sfs_mkdir d c path mode s) (pos 0, s') r
        (sfs_mkdir-MayMake c path mode s e plain) refl
