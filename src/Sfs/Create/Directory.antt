-- ===== src/Sfs/Create/Directory.antt =====
-- The directory of a path, which sfs_create and sfs_mkdir look up in the name table.
use cs.Base.{
  is_neg, ℕ, zero, suc, ◌≡◌, ◌≢◌, refl, ap, subst, sym, ◌∙◌, List, [], ◌∷◌, ℤ, pos, minus_one,
  Option, none, some, Bool, true, false, ◌==◌, get_elem?, arith,
}
use cs.Sfs.State.{FileEntry, Inode, PathMap, Fs, free}
use cs.Sfs.Tables.{
  get_fh, scan, modify, get_inode, fresh_inode, get_mapping, path_lookup, same_text, or_minus_one,
}
use cs.Sfs.Tables.Alloc.{IsFirst, Found, scan-Found, same_text_iff, get_elem?-modify_ne}
use cs.Sfs.Path.{get_cwd_path}
use cs.Sfs.Create.Names.{scan-IsFirst, named}

module _ {A : Type 0} (p : A → Bool) where
  IsFirst-elem :
      (xs : List A) (j : ℕ) → IsFirst p xs j → (x : A) × (get_elem? xs j ≡ some x) × (p x ≡ true)
  IsFirst-elem [] j h = elim h [ ]
  IsFirst-elem (x ∷ xs) zero h = (x, refl, h)
  IsFirst-elem (x ∷ xs) (suc j) h = IsFirst-elem xs j h.1

  -- The first entry stays the first when another one is replaced by one that fails the test.
  IsFirst-modify_ne :
      (xs : List A) (k j : ℕ) (f g : A → A)
      → IsFirst p xs j
      → j ≢ k
      → ((x : A) → p (g x) ≡ false)
      → IsFirst p (modify (modify xs k f) k g) j
  unfolding modify
  IsFirst-modify_ne [] k j f g h n o = elim h [ ]
  IsFirst-modify_ne (x ∷ xs) zero zero f g h n o = absurd (n refl)
  IsFirst-modify_ne (x ∷ xs) zero (suc j) f g h n o = (o (f x), h.1)
  IsFirst-modify_ne (x ∷ xs) (suc k) zero f g h n o = h
  IsFirst-modify_ne (x ∷ xs) (suc k) (suc j) f g h n o =
      (h.0, IsFirst-modify_ne xs k j f g h.1 (λ e. n (ap suc e)) o)

  scan-some : (xs : List A) (j : ℕ) → scan p xs 0 ≡ some j → IsFirst p xs j
  scan-some xs j e =
      let (k, q, h) = subst (Found p xs 0) e (scan-Found p xs 0) in
      let same : k ≡ j = omega (arith, q) in subst (IsFirst p xs) same h

path_lookup-IsFirst :
    (t : List PathMap) (path : List ℕ) (k : ℕ)
    → path_lookup t path ≡ pos k
    → IsFirst (λ m. same_text m.path path) t k
unfolding path_lookup
path_lookup-IsFirst t path k e = go (scan (λ m. same_text m.path path) t 0) refl e
  where
    go :
        (r : Option ℕ)
        → scan (λ m. same_text m.path path) t 0 ≡ r
        → or_minus_one r ≡ pos k
        → IsFirst (λ m. same_text m.path path) t k
    go none p e = absurd (ground arith)
    go (some j) p e =
        let same : j ≡ k = ground arith in
        scan-some (λ m. same_text m.path path) t k (p ∙ ap some same)

-- A path that is found is found as before once another one has been entered into a free place.
path_lookup-named :
    (t : List PathMap) (k j inode : ℕ) (path other : List ℕ)
    → path_lookup t other ≡ pos j
    → j ≢ k
    → path ≢ other
    → path_lookup (named t k path inode) other ≡ pos j
unfolding path_lookup
path_lookup-named t k j inode path other e n o =
    let differs : same_text path other ≡ false = ground (arith, same_text_iff path other) in
    ap or_minus_one (
      scan-IsFirst (λ m. same_text m.path other) (named t k path inode) 0 j
        (IsFirst-modify_ne (λ m. same_text m.path other) t k j _ _ (path_lookup-IsFirst t other j e)
          n (λ m. differs)))
    ∙ ap pos (omega arith)

-- The directory of a path is in the name table, under an entry in use, and has an inode in use.
pub record HasDirectory {F : Type 0} (s : Fs F) (path : List ℕ) : Type 0 where
  pub r : ℤ
  pub cwd : List ℕ
  pub k : ℕ
  pub entry : PathMap
  pub number : ℕ
  pub inode : Inode
  pub is_cwd : get_cwd_path path ≡ some (r, cwd)
  pub is_found : path_lookup s.name_table cwd ≡ pos k
  pub is_entry : get_elem? s.name_table k ≡ some entry
  pub used : entry.avail ≢ free
  pub names : entry.st_ino ≡ pos number
  pub is_inode : get_elem? s.inode_table number ≡ some inode
  pub taken : inode.avail ≢ free

-- The directory depends on the names, and on its own inode.
pub HasDirectory-same :
    {F : Type 0} (path : List ℕ) (s s' : Fs F) (h : HasDirectory s path)
    → s'.name_table ≡ s.name_table
    → get_elem? s'.inode_table h.number ≡ get_elem? s.inode_table h.number
    → (h' : HasDirectory s' path) × (h'.number ≡ h.number) × (h'.inode ≡ h.inode)
HasDirectory-same path s s' h t e = (
  record {
    r = h.r;
    cwd = h.cwd;
    k = h.k;
    entry = h.entry;
    number = h.number;
    inode = h.inode;
    is_cwd = h.is_cwd;
    is_found = ap (λ t. path_lookup t h.cwd) t ∙ h.is_found;
    is_entry = ap (λ t. get_elem? t h.k) t ∙ h.is_entry;
    used = h.used;
    names = h.names;
    is_inode = e ∙ h.is_inode;
    taken = h.taken;
  },
  refl,
  refl,
)

-- The directory's inode is not one that is free.
pub number-ne :
    {F : Type 0} (path : List ℕ) (s : Fs F) (h : HasDirectory s path) (i : ℕ) (n : Inode)
    → get_elem? s.inode_table i ≡ some n
    → n.avail ≡ free
    → h.number ≢ i
number-ne path s h i n found is_free x =
    absurd (ground (arith, h.taken, h.is_inode, found, is_free, x))

get_mapping-free :
    (t : List PathMap) (k : ℕ)
    → (get_mapping t).0 ≡ pos k
    → (m : PathMap) × (get_elem? t k ≡ some m) × (m.avail ≡ free)
unfolding get_mapping
get_mapping-free t k e = go (scan (λ m. m.avail == free) t 0) refl
  where
    go :
        (r : Option ℕ)
        → scan (λ m. m.avail == free) t 0 ≡ r
        → (m : PathMap) × (get_elem? t k ≡ some m) × (m.avail ≡ free)
    go none p = absurd (ground (arith, p))
    go (some j) p =
        let same : j ≡ k = ground (arith, p) in
        let (m, f, q) =
          IsFirst-elem (λ m. m.avail == free) t k
            (scan-some (λ m. m.avail == free) t k (p ∙ ap some same)) in
        (m, f, ground arith)

pub get_inode-free :
    (t : List Inode) (i : ℕ)
    → (get_inode t).0 ≡ pos i
    → (n : Inode) × (get_elem? t i ≡ some n)
      × (n.avail ≡ free)
      × ((get_inode t).1 ≡ modify t i fresh_inode)
unfolding get_inode
get_inode-free t i e = go (scan (λ n. n.avail == free) t 0) refl
  where
    go :
        (r : Option ℕ)
        → scan (λ n. n.avail == free) t 0 ≡ r
        → (n : Inode) × (get_elem? t i ≡ some n)
          × (n.avail ≡ free)
          × ((get_inode t).1 ≡ modify t i fresh_inode)
    go none p = absurd (ground (arith, p))
    go (some j) p =
        let same : j ≡ i = ground (arith, p) in
        let (n, f, q) =
          IsFirst-elem (λ n. n.avail == free) t i
            (scan-some (λ n. n.avail == free) t i (p ∙ ap some same)) in
        (n, f, ground arith, rw (get_inode, p, same) refl)

pub get_fh-free :
    (t : List FileEntry) (h : ℕ)
    → get_fh t ≡ pos h
    → (e : FileEntry) × (get_elem? t h ≡ some e) × (is_neg e.st_ino ≡ true)
unfolding get_fh
get_fh-free t h e = go (scan (λ e. is_neg e.st_ino) t 0) refl
  where
    go :
        (r : Option ℕ)
        → scan (λ e. is_neg e.st_ino) t 0 ≡ r
        → (e : FileEntry) × (get_elem? t h ≡ some e) × (is_neg e.st_ino ≡ true)
    go none p = absurd (ground (arith, p))
    go (some j) p =
        let same : j ≡ h = ground (arith, p) in
        IsFirst-elem (λ e. is_neg e.st_ino) t h
          (scan-some (λ e. is_neg e.st_ino) t h (p ∙ ap some same))

module _ {F : Type 0} where
  -- The directory of the path is the same once the path itself has been entered.
  pub HasDirectory-named :
      (path : List ℕ) (k i : ℕ) (s : Fs F) (h : HasDirectory s path)
      → path_lookup s.name_table path ≡ minus_one
      → (get_mapping s.name_table).0 ≡ pos k
      → (h' : HasDirectory (record s { name_table = named s.name_table k path i }) path)
        × (h'.number ≡ h.number)
        × (h'.inode ≡ h.inode)
  HasDirectory-named path k i s h e g =
      let (m, f, q) = get_mapping-free s.name_table k g in
      let other : h.k ≢ k = λ x. absurd (ground (arith, h.used, h.is_entry, f, q, x)) in
      let apart : path ≢ h.cwd =
        λ x. absurd (ground (arith, h.is_found, e, ap (path_lookup s.name_table) x)) in
      (
        record {
          r = h.r;
          cwd = h.cwd;
          k = h.k;
          entry = h.entry;
          number = h.number;
          inode = h.inode;
          is_cwd = h.is_cwd;
          is_found = path_lookup-named s.name_table k h.k i path h.cwd h.is_found other apart;
          is_entry =
              get_elem?-modify_ne _ k h.k _ (λ x. other (sym x))
              ∙ get_elem?-modify_ne s.name_table k h.k _ (λ x. other (sym x))
              ∙ h.is_entry;
          used = h.used;
          names = h.names;
          is_inode = h.is_inode;
          taken = h.taken;
        },
        refl,
        refl,
      )
