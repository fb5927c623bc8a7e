-- ===== src/Sfs/Create/Room.antt =====
-- What sfs_create of asst3/assignment3/src/sfs.c leaves of the table of blocks and of the size of the disk.
use cs.Base.{
  if◌then◌else◌, ℕ, ◌+◌, ◌-◌, ◌*◌, ◌/◌, ◌%◌, ◌≤◌, ◌≡◌, refl, inl, inr, ap, List, [], ◌∷◌, ◌++◌, ℤ,
  pos, negsuc, minus_one, Option, none, some, Bool, true, false, ltb, leb, is_neg, Bool-cases,
  length, take, drop, arith,
}
use cs.Sfs.State.{Inode, Store, Fs, at_int}
use cs.Sfs.Block.{Disk, IsReliable, block_size, block_read, block_write, zeros}
use cs.Sfs.Short.{get_short, set_short}
use cs.Sfs.Tables.{get_fh, get_inode, get_block, get_mapping, free_inode, path_lookup}
use cs.Sfs.Tables.Alloc.{length-get_block}
use cs.Sfs.Index.{
  ◌>>=◌, entry, clear_shorts, get_block_index, set_block_index, write_block, single_block,
  double_block, sub_block, set_single, set_double,
}
use cs.Sfs.File.{Caller}
use cs.Sfs.Path.{get_cwd_path, get_name}
use cs.Sfs.Read.{to_short}
use cs.Sfs.Write.{copy_in}
use cs.Sfs.Create.{
  find_end, spill, enter_text, entry_text, enter_name, enter_parent, name_file, sfs_create, exceeds,
}
use cs.Sfs.Create.Steps.{WhereSome, WhereSome-bind, WhereSome-then}
use cs.Sfs.Create.Names.{get_mapping-cases}

module _ (d : Disk) (ok : IsReliable d) where
  -- The documented behaviour of pwrite on a regular file: no write makes it shorter.
  abbrev pub NeverShrinks : Type 0
  NeverShrinks = (f : d.File) (o : ℤ) (b : List ℕ) → ok.size f ≤ ok.size (d.pwrite f o b).1

  -- The disk has room for all blocks of the table.
  abbrev pub HasRoom : Store d.File → Type 0
  HasRoom s = length s.disk_blocks * block_size ≤ ok.size s.disk

  module _ (grows : NeverShrinks) where
    HasRoom-write_block :
        (s : Store d.File) (b : ℤ) (buf : List ℕ) → HasRoom s → HasRoom (write_block d s b buf)
    unfolding block_write
    HasRoom-write_block s b buf h = omega (arith, h, grows s.disk _ buf)

    HasRoom-get_block :
        {B : Type 0} (P : B → Type 0) (s : Store d.File) (f : ℤ × List ℕ → Option B)
        → HasRoom s
        → ((b : ℤ) (t : List ℕ) → HasRoom (record s { disk_blocks = t }) → WhereSome P (f (b, t)))
        → WhereSome P (get_block s.disk_blocks >>= f)
    HasRoom-get_block P s f h k =
        WhereSome-bind (λ r. length r.1 ≡ length s.disk_blocks) P (get_block s.disk_blocks) f
          (go (get_block s.disk_blocks) refl) (λ r l. k r.0 r.1 (omega (arith, l, h)))
      where
        go :
            (r : Option (ℤ × List ℕ))
            → get_block s.disk_blocks ≡ r
            → WhereSome (λ r. length r.1 ≡ length s.disk_blocks) r
        go none e = tt
        go (some (b, t)) e = length-get_block s.disk_blocks t b e

    single_block-HasRoom :
        (inode : Inode) (s : Store d.File)
        → HasRoom s
        → WhereSome (λ r. HasRoom r.3) (single_block d inode s)
    unfolding single_block
    single_block-HasRoom inode s h = elim (Bool-cases (is_neg (entry inode 10))) [
      | inl e ↦ rw (single_block, e) (HasRoom-get_block _ s _ h (λ b t r. r))
      | inr e ↦ rw (single_block, e) h
    ]

    double_block-HasRoom :
        (inode : Inode) (s : Store d.File)
        → HasRoom s
        → WhereSome (λ r. HasRoom r.2) (double_block d inode s)
    unfolding double_block
    double_block-HasRoom inode s h = elim (Bool-cases (is_neg (entry inode 11))) [
      | inl e ↦
          rw (double_block, e)
            (HasRoom-get_block _ s _ h (λ b t r.
              HasRoom-write_block (record s { disk_blocks = t }) b (clear_shorts 10 d.junk) r))
      | inr e ↦ rw (double_block, e) h
    ]

    sub_block-HasRoom :
        (inode : Inode) (buf : List ℕ) (j : ℕ) (s : Store d.File)
        → HasRoom s
        → WhereSome (λ r. HasRoom r.2) (sub_block d inode buf j s)
    unfolding sub_block
    sub_block-HasRoom inode buf j s h = elim (Bool-cases (is_neg (get_short buf j))) [
      | inl e ↦
          rw (sub_block, e)
            (HasRoom-get_block _ s _ h (λ b t r.
              HasRoom-write_block (record s { disk_blocks = t }) (entry inode 11)
                (set_short buf j b) r))
      | inr e ↦ rw (sub_block, e) h
    ]

    set_block_index-HasRoom :
        (inode : Inode) (z index : ℤ) (s : Store d.File)
        → HasRoom s
        → WhereSome (λ r. HasRoom r.1) (set_block_index d inode z index s)
    unfolding set_block_index set_single set_double
    set_block_index-HasRoom inode (negsuc n) index s h = tt
    set_block_index-HasRoom inode (pos n) index s h = elim (Bool-cases (ltb n 10)) [
      | inl a ↦ rw (set_block_index, a) h
      | inr a ↦ elim (Bool-cases (ltb n 110)) [
        | inl b ↦
            rw (set_block_index, a, b)
              (WhereSome-bind _ _ (single_block d inode s) _ (single_block-HasRoom inode s h)
                (λ r k. HasRoom-write_block r.3 r.0 (set_short r.1 (n - 10) index) k))
        | inr b ↦ elim (Bool-cases (leb n 1110)) [
          | inl c ↦
              rw (set_block_index, a, b, c)
                (WhereSome-bind _ _ (double_block d inode s) _ (double_block-HasRoom inode s h)
                  (λ r k.
                    WhereSome-bind _ _ (sub_block d r.1 r.0 ((n - 110) / 100) r.2) _
                      (sub_block-HasRoom r.1 r.0 ((n - 110) / 100) r.2 k)
                      (λ q l.
                        HasRoom-write_block q.2 q.0 (set_short q.1 ((n - 110) % 100) index) l)))
          | inr c ↦ rw (set_block_index, a, b, c) h
        ]
      ]
    ]

    spill-HasRoom :
        (inode : Inode) (i : ℕ) (rest : List ℕ) (s : Store d.File)
        → HasRoom s
        → WhereSome (λ r. HasRoom r.1) (spill d inode i rest s)
    unfolding spill
    spill-HasRoom inode i rest s h = HasRoom-get_block _ s _ h (λ b t r.
        WhereSome-bind _ _
          (set_block_index d inode (to_short (i + 1)) b (record s { disk_blocks = t })) _
          (set_block_index-HasRoom inode (to_short (i + 1)) b (record s { disk_blocks = t }) r)
          (λ x k. HasRoom-write_block x.1 b rest k))

    enter_text-HasRoom :
        (text : List ℕ) (inode : Inode) (s : Store d.File)
        → HasRoom s
        → WhereSome (λ r. HasRoom r.1) (enter_text d text inode s)
    unfolding enter_text
    enter_text-HasRoom text inode s h =
        WhereSome-then _ (get_block_index d s.disk inode (pos 0)) _ (λ b.
          WhereSome-then _ (find_end d 1111 s.disk inode 0 (block_read d s.disk b zeros).1) _ (λ r.
            WhereSome-then _ (copy_in r.1 (text ++ 0 ∷ []) (r.2 ++ d.junk)) _ (λ whole.
              WhereSome-then _ (get_block_index d s.disk inode (to_short r.0)) _ (λ b'.
                let s1 : Store d.File = write_block d s b' (take block_size whole) in
                let k : HasRoom s1 = HasRoom-write_block s b' (take block_size whole) h in
                WhereSome-bind (λ x. HasRoom x.1) _
                  (if exceeds inode.stat.st_size (length text + 1)
                    then spill d inode r.0 (drop block_size whole) s1
                    else some (inode, s1))
                  _
                  (either (exceeds inode.stat.st_size (length text + 1)) _ _
                    (spill-HasRoom inode r.0 (drop block_size whole) s1 k) k)
                  (λ x l. l)))))
      where
        either :
            (b : Bool) (x y : Option (Inode × Store d.File))
            → WhereSome (λ r. HasRoom r.1) x
            → WhereSome (λ r. HasRoom r.1) y
            → WhereSome (λ r. HasRoom r.1) (if b then x else y)
        either true x y f g = f
        either false x y f g = g

    enter_parent-HasRoom :
        (path : List ℕ) (inode : ℕ) (s : Fs d.File)
        → HasRoom s.store
        → WhereSome (λ s'. HasRoom s'.store) (enter_parent d path inode s)
    unfolding enter_parent
    enter_parent-HasRoom path inode s h = WhereSome-then _ (get_cwd_path path) _ (λ r.
        WhereSome-then _ (at_int s.name_table (path_lookup s.name_table r.1)) _ (λ m.
          WhereSome-then _ (at_int s.inode_table m.st_ino) _ (λ cwd.
            WhereSome-then _ (get_name path) _ (λ name.
              WhereSome-bind _ _ (enter_text d (entry_text name inode) cwd s.store) _
                (enter_text-HasRoom (entry_text name inode) cwd s.store h) (λ x k. k)))))

    name_file-HasRoom :
        (path : List ℕ) (fh inode : ℕ) (s : Fs d.File)
        → HasRoom s.store
        → WhereSome (λ r. r.0 ≡ pos 0 → HasRoom r.1.store) (name_file d path fh inode s)
    unfolding name_file
    name_file-HasRoom path fh inode s h = elim (get_mapping-cases s.name_table) [
      | inl g ↦
          rw (name_file, g)
            (WhereSome-then _ (free_inode d s (pos inode)) _ (λ s' z. absurd (ground arith)))
      | inr (k, l, g) ↦
          let g0 : (get_mapping s.name_table).0 ≡ pos k = ap (λ r. r.0) g in
          rw (name_file, g0)
            (WhereSome-then _ (enter_name (get_mapping s.name_table).1 k path inode) _ (λ t.
              WhereSome-bind _ _ (enter_parent d path inode (record s { name_table = t })) _
                (enter_parent-HasRoom path inode (record s { name_table = t }) h) (λ s' r z. r)))
    ]

    pub sfs_create-HasRoom :
        (c : Caller) (path : List ℕ) (mode : ℕ) (s : Fs d.File)
        → path_lookup s.name_table path ≡ minus_one
        → HasRoom s.store
        → WhereSome (λ r. r.0 ≡ pos 0 → HasRoom r.2.store) (sfs_create d c path mode s)
    unfolding sfs_create
    sfs_create-HasRoom c path mode s e h =
        go (get_fh s.open_files) ((get_inode s.inode_table).0) refl refl
      where
        go :
            (z w : ℤ)
            → get_fh s.open_files ≡ z
            → (get_inode s.inode_table).0 ≡ w
            → WhereSome (λ r. r.0 ≡ pos 0 → HasRoom r.2.store) (sfs_create d c path mode s)
        go (negsuc n) w p q = rw (sfs_create, e, p) tt
        go (pos fh) (negsuc n) p q = rw (sfs_create, e, p, q) tt
        go (pos fh) (pos i) p q =
            rw (sfs_create, e, p, q)
              (WhereSome-bind _ _ (name_file d path fh i _) _ (name_file-HasRoom path fh i _ h)
                (λ r k. k))
