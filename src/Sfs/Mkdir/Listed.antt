-- ===== src/Sfs/Mkdir/Listed.antt =====
-- What sfs_readdir gives of a directory that sfs_mkdir has made.
use cs.Base.{
  ℕ, ◌*◌, ◌≤◌, ◌≡◌, ◌≢◌, refl, inl, inr, ap, subst, sym, ◌∙◌, List, [], ◌∷◌, ◌++◌, ℤ, pos,
  minus_one, Option, none, some, length, get_elem?, arith, get_elem?-set_ne, length-replicate,
}
use mathlib.Core.List.{append-nil}
use cs.Sfs.State.{Inode, Store, Fs, allocd, free}
use cs.Sfs.Block.{
  Disk, IsReliable, block_write, block_size, zeros, HasBlock, Reads, Reads-write_self,
}
use cs.Sfs.Tables.{modify, get_inode, fresh_inode, get_mapping, get_block, free_inode, path_lookup}
use cs.Sfs.Index.{entry, set_entry, get_block_index, get_block_index-pos, write_block}
use cs.Sfs.Index.Single.{HasBlock-covers, get_block-some}
use cs.Sfs.Write.{copy_in}
use cs.Sfs.Write.Grow.{index_of-direct}
use cs.Sfs.Path.{get_name}
use cs.Sfs.Create.{entry_text, enter_name}
use cs.Sfs.Create.Directory.{
  HasDirectory, HasDirectory-named, HasDirectory-same, number-ne, get_inode-free,
}
use cs.Sfs.Remove.{text_of}
use cs.Sfs.Readdir.{sfs_readdir}
use cs.Sfs.Readdir.Names.{sfs_readdir-entries}
use cs.Sfs.Create.Steps.{WhereSome, WhereSome-bind, WhereSome-then, WhereSome-some, WhereSome-map}
use cs.Sfs.Create.Names.{NoPercent, named, get_mapping-cases, enter_name-gives}
use cs.Sfs.Tables.Alloc.{get_elem?-modify_self, get_elem?-modify_ne}
use cs.Sfs.File.{Caller}
use cs.Sfs.Mkdir.Found.{sfs_mkdir-Makes}
use cs.Sfs.Mkdir.{
  first_entries, enter_text_here, fill_directory, name_directory, sfs_mkdir, directory_stat,
}
use cs.Sfs.Mkdir.Text.{first_entries-NoZero, text_of-copy_in}
use cs.Sfs.Mkdir.Parent.{copy_in-length, IsAway, IsTidy, IsTidy-IsAway, enter_text_here-Reads}

module _ (d : Disk) (ok : IsReliable d) where
  -- The new directory has its inode, and its block the text of its first entries.
  abbrev IsFilled : ℕ → ℕ → Inode → ℕ → Fs d.File → Type 0
  IsFilled i parent n c s =
      (get_elem? s.inode_table i ≡ some n)
      × (buf : List ℕ) × (copy_in 0 (first_entries i parent ++ 0 ∷ []) zeros ≡ some buf)
      × Reads d ok s.store.disk c buf

  fill_directory-IsFilled :
      (path : List ℕ) (i c : ℕ) (s : Fs d.File) (n : Inode) (old : Store d.File)
      (h : HasDirectory s path)
      → get_elem? s.inode_table i ≡ some n
      → entry n 0 ≡ pos c
      → h.number ≢ i
      → IsTidy d ok h.inode old
      → length old.disk_blocks * block_size ≤ ok.size old.disk
      → get_elem? old.disk_blocks c ≡ some free
      → s.store.disk ≡ old.disk
      → WhereSome (IsFilled i h.number n c) (fill_directory d path i s)
  unfolding fill_directory
  fill_directory-IsFilled path i c s n old h found at other v room f same =
      go (copy_in 0 (first_entries i h.number ++ 0 ∷ []) zeros) refl
    where
      first : get_block_index d s.store.disk n (pos 0) ≡ some (pos c)
      first =
          get_block_index-pos d s.store.disk n 0
          ∙ ap some (index_of-direct d ok s.store.disk n 0 (omega arith) ∙ at)

      go :
          (r : Option (List ℕ))
          → copy_in 0 (first_entries i h.number ++ 0 ∷ []) zeros ≡ r
          → WhereSome (IsFilled i h.number n c) (fill_directory d path i s)
      go none p = rw (h.is_cwd, h.is_found, h.is_entry, h.names, found, p) tt
      go (some buf) p =
          let l : length buf ≡ block_size =
            WhereSome-some (λ out. length out ≡ length zeros) _ buf p
              (copy_in-length 0 (first_entries i h.number ++ 0 ∷ []) zeros)
            ∙ length-replicate {A = ℕ} block_size 0 in
          let has : HasBlock d ok s.store.disk c =
            subst (λ f. HasBlock d ok f c) (sym same) (HasBlock-covers d ok old c free room f) in
          let s1 : Store d.File = write_block d s.store (pos c) buf in
          let away : IsAway d ok s1.disk h.inode c =
            subst (λ f. IsAway d ok (block_write d f (pos c) buf).1 h.inode c) (sym same)
              (IsTidy-IsAway d ok h.inode old c buf v room f l) in
          rw (h.is_cwd, h.is_found, h.is_entry, h.names, found, p, first, h.is_inode)
            (WhereSome-then (IsFilled i h.number n c) (get_name path) _ (λ name.
              WhereSome-bind (λ x. Reads d ok x.1.disk c buf) (IsFilled i h.number n c)
                (enter_text_here d (entry_text name i) h.inode s1) _
                (enter_text_here-Reads d ok (entry_text name i) h.inode s1 c buf away
                  (Reads-write_self d ok s.store.disk c buf l has))
                (λ x r. (get_elem?-set_ne s.inode_table x.0 other ∙ found, buf, p, r))))

  name_directory-IsFilled :
      (path : List ℕ) (i c : ℕ) (s : Fs d.File) (n : Inode) (old : Store d.File)
      (h : HasDirectory s path)
      → path_lookup s.name_table path ≡ minus_one
      → NoPercent path
      → get_elem? s.inode_table i ≡ some n
      → entry n 0 ≡ pos c
      → h.number ≢ i
      → IsTidy d ok h.inode old
      → length old.disk_blocks * block_size ≤ ok.size old.disk
      → get_elem? old.disk_blocks c ≡ some free
      → s.store.disk ≡ old.disk
      → WhereSome (λ r. r.0 ≡ pos 0 → IsFilled i h.number n c r.1) (name_directory d path i s)
  unfolding name_directory
  name_directory-IsFilled path i c s n old h e plain found at other v room f same =
      elim (get_mapping-cases s.name_table) [
        | inl g ↦
            rw (name_directory, g)
              (WhereSome-then _ (free_inode d s (pos i)) _ (λ s' z. absurd (ground arith)))
        | inr (k, l, g) ↦
            let g0 : (get_mapping s.name_table).0 ≡ pos k = ap (λ r. r.0) g in
            let g1 : (get_mapping s.name_table).1
                ≡ modify s.name_table k (λ m. record m { avail = allocd }) =
              ap (λ r. r.1) g in
            let named_s : Fs d.File = record s { name_table = named s.name_table k path i } in
            let (h', number, inode) = HasDirectory-named path k i s h e g0 in
            rw (name_directory, g0, g1)
              (WhereSome-bind _ _
                (enter_name (modify s.name_table k (λ m. record m { avail = allocd })) k path i) _
                (enter_name-gives _ k path i plain)
                (λ t q.
                  WhereSome-bind _ _ (fill_directory d path i (record s { name_table = t })) _
                    (subst
                      (λ t.
                        WhereSome (IsFilled i h.number n c)
                          (fill_directory d path i (record s { name_table = t })))
                      (sym q)
                      (subst (λ p. WhereSome (IsFilled i p n c) (fill_directory d path i named_s))
                        number
                        (fill_directory-IsFilled path i c named_s n old h' found at
                          (λ x. other (sym number ∙ x))
                          (subst (λ q. IsTidy d ok q old) (sym inode) v) room f same)))
                    (λ s' u z. u)))
      ]

  -- The inode of a new directory, whose first block is `c`.
  abbrev fresh : Caller → ℕ → Inode → ℕ → Inode
  fresh c mode n b = set_entry (record (fresh_inode n) { stat = directory_stat c mode }) 0 (pos b)

  -- What sfs_mkdir leaves where it succeeds: the new directory, in a block that was free.
  abbrev IsMade : Caller → ℕ → ℕ → Inode → ℕ → ℤ × Fs d.File → Type 0
  IsMade c mode i n parent r = r.0 ≡ pos 0 → (b : ℕ) × IsFilled i parent (fresh c mode n b) b r.1

  sfs_mkdir-IsMade :
      (c : Caller) (path : List ℕ) (mode i : ℕ) (s : Fs d.File) (n : Inode)
      (h : HasDirectory s path)
      → path_lookup s.name_table path ≡ minus_one
      → NoPercent path
      → IsTidy d ok h.inode s.store
      → length s.store.disk_blocks * block_size ≤ ok.size s.store.disk
      → (get_inode s.inode_table).0 ≡ pos i
      → get_elem? s.inode_table i ≡ some n
      → n.avail ≡ free
      → (get_inode s.inode_table).1 ≡ modify s.inode_table i fresh_inode
      → WhereSome (IsMade c mode i n h.number) (sfs_mkdir d c path mode s)
  unfolding sfs_mkdir fresh_inode
  sfs_mkdir-IsMade c path mode i s n h e plain v room q found is_free table =
      go (get_block s.store.disk_blocks) refl
    where
      other : h.number ≢ i
      other = number-ne path s h i n found is_free

      made : ℕ → List ℕ → Fs d.File
      made b t = record s {
        store = record (s.store) { disk_blocks = t };
        inode_table =
            modify (modify s.inode_table i fresh_inode) i
              (λ n. set_entry (record n { stat = directory_stat c mode }) 0 (pos b));
      }

      at : (b : ℕ) (t : List ℕ) → get_elem? (made b t).inode_table i ≡ some (fresh c mode n b)
      at b t =
          get_elem?-modify_self (modify s.inode_table i fresh_inode) i _ (fresh_inode n)
            (get_elem?-modify_self s.inode_table i fresh_inode n found)

      go :
          (r : Option (ℤ × List ℕ))
          → get_block s.store.disk_blocks ≡ r
          → WhereSome (IsMade c mode i n h.number) (sfs_mkdir d c path mode s)
      go none p = rw (sfs_mkdir, e, q, p) tt
      go (some (z, t)) p =
          let (b, g, f, a) = get_block-some s.store.disk_blocks t z p in
          let (h', number, inode) = HasDirectory-same path s (made b t) h refl (
            get_elem?-modify_ne _ i h.number _ (λ x. other (sym x))
            ∙ get_elem?-modify_ne s.inode_table i h.number _ (λ x. other (sym x))) in
          rw (sfs_mkdir, e, q, g, table)
            (WhereSome-map (λ r. r.0 ≡ pos 0 → IsFilled i h'.number (fresh c mode n b) b r.1)
              (IsMade c mode i n h.number) (name_directory d path i (made b t))
              (name_directory-IsFilled path i b (made b t) (fresh c mode n b) s.store h' e plain
                (at b t) refl (λ x. other (sym number ∙ x))
                (subst (λ y. IsTidy d ok y s.store) (sym inode) v) room f refl)
              (λ r filled z.
                (b, subst (λ p. IsFilled i p (fresh c mode n b) b r.1) number (filled z))))

  -- Where no entry of the name table holds the path, which has no `%`, but one in use, with an inode in use, holds its
  -- directory, and all blocks that this directory leads to are missing or marked as taken, in a table that the
  -- disk has room for: of a directory that sfs_mkdir has made with the result 0, sfs_readdir gives "."
  -- and "..", and nothing else.
  pub sfs_readdir-sfs_mkdir :
      (c : Caller) (path : List ℕ) (mode : ℕ) (s s' : Fs d.File) (h : HasDirectory s path)
      → path_lookup s.name_table path ≡ minus_one
      → NoPercent path
      → IsTidy d ok h.inode s.store
      → length s.store.disk_blocks * block_size ≤ ok.size s.store.disk
      → sfs_mkdir d c path mode s ≡ some (pos 0, s')
      → sfs_readdir d path s' ≡ some (pos 0, (46 ∷ []) ∷ (46 ∷ 46 ∷ []) ∷ [])
  unfolding fresh_inode
  sfs_readdir-sfs_mkdir c path mode s s' h e plain v room r =
      let (i, q, (k, m, looks, elem, names), _, _, _, _) =
        sfs_mkdir-Makes d c path mode s s' e plain r in
      let (n, found, is_free, table) = get_inode-free s.inode_table i q in
      let (b, (at, buf, copies, reads)) =
        WhereSome-some (IsMade c mode i n h.number) (sfs_mkdir d c path mode s) (pos 0, s') r
          (sfs_mkdir-IsMade c path mode i s n h e plain v room q found is_free table) refl in
      sfs_readdir-entries d s' path k i h.number m (fresh c mode n b) [] looks elem names at
        (λ z. ground (arith, z))
        (ap text_of (reads.2 d.junk)
          ∙ text_of-copy_in (first_entries i h.number) zeros buf (first_entries-NoZero i h.number)
              copies
          ∙ ap some (sym (append-nil (first_entries i h.number))))
        tt
