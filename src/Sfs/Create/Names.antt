-- ===== src/Sfs/Create/Names.antt =====
-- The name table of asst3/assignment3/src/sfs.c with a path entered.
use cs.Base.{
  ℕ, zero, suc, ◌+◌, ◌-◌, ◌<◌, ◌≡◌, ◌≢◌, refl, ◌⊎◌, inl, inr, ap, subst, ◌∙◌, List, [], ◌∷◌, pos,
  minus_one, Option, none, some, Bool, true, false, ◌==◌, ltb, if◌then◌else◌, is_neg, length,
  get_elem?, arith,
}
use cs.Sfs.State.{PathMap, FileEntry, allocd, free}
use cs.Sfs.Tables.{scan, modify, get_mapping, get_fh, path_lookup, same_text, or_minus_one}
use cs.Sfs.Tables.Alloc.{IsFirst, NoneOf, Found, scan-Found, same_text_iff, get_elem?-modify_self}
use cs.Sfs.Create.Steps.{WhereSome}
use cs.Sfs.Create.{enter_name, formatted, max_path_len}

module _ {A : Type 0} (p : A → Bool) where
  pub scan-IsFirst : (xs : List A) (i j : ℕ) → IsFirst p xs j → scan p xs i ≡ some (i + j)
  unfolding scan
  scan-IsFirst [] i j h = elim h [ ]
  scan-IsFirst (x ∷ xs) i zero h = rw (h) (ap some (omega arith))
  scan-IsFirst (x ∷ xs) i (suc j) h =
      rw (h.0) (scan-IsFirst xs (i + 1) j h.1 ∙ ap some (omega arith))

  IsFirst-length : (xs : List A) (j : ℕ) → IsFirst p xs j → j < length xs
  IsFirst-length [] j h = elim h [ ]
  IsFirst-length (x ∷ xs) zero h = omega arith
  IsFirst-length (x ∷ xs) (suc j) h = omega (arith, IsFirst-length xs j h.1)

  -- An entry that passes the test where no other does is the first.
  IsFirst-modify :
      (xs : List A) (k : ℕ) (f g : A → A)
      → k < length xs
      → NoneOf p xs
      → ((x : A) → p (g x) ≡ true)
      → IsFirst p (modify (modify xs k f) k g) k
  unfolding modify
  IsFirst-modify [] k f g l n h = absurd (omega arith)
  IsFirst-modify (x ∷ xs) zero f g l n h = h (f x)
  IsFirst-modify (x ∷ xs) (suc k) f g l n h = (n.0, IsFirst-modify xs k f g (omega arith) n.1 h)

  scan-length : (xs : List A) (k : ℕ) → scan p xs 0 ≡ some k → k < length xs
  scan-length xs k e =
      let (j, q, h) = subst (Found p xs 0) e (scan-Found p xs 0) in
      omega (arith, q, IsFirst-length xs j h)

get_elem?-length {ℓ} :
    {A : Type ℓ} (xs : List A) (k : ℕ) → k < length xs → (x : A) × (get_elem? xs k ≡ some x)
get_elem?-length [] k h = absurd (omega arith)
get_elem?-length (x ∷ xs) zero h = (x, refl)
get_elem?-length (x ∷ xs) (suc k) h = get_elem?-length xs k (omega arith)

path_lookup-NoneOf :
    (t : List PathMap) (path : List ℕ)
    → path_lookup t path ≡ minus_one
    → NoneOf (λ m. same_text m.path path) t
unfolding path_lookup
path_lookup-NoneOf t path e = go (scan (λ m. same_text m.path path) t 0) (scan-Found _ t 0) e
  where
    go :
        (r : Option ℕ)
        → Found (λ m. same_text m.path path) t 0 r
        → or_minus_one r ≡ minus_one
        → NoneOf (λ m. same_text m.path path) t
    go none f e = f
    go (some k) f e = absurd (ground arith)

pub get_fh-length : (t : List FileEntry) (h : ℕ) → get_fh t ≡ pos h → h < length t
unfolding get_fh
get_fh-length t h e = go (scan (λ e. is_neg e.st_ino) t 0) refl e
  where
    go :
        (r : Option ℕ) → scan (λ e. is_neg e.st_ino) t 0 ≡ r → or_minus_one r ≡ pos h → h < length t
    go none p e = absurd (ground arith)
    go (some k) p e = let same : k ≡ h = ground arith in scan-length _ t h (p ∙ ap some same)

-- The entry `k` of the table for a free name, once it is taken.
abbrev pub named : List PathMap → ℕ → List ℕ → ℕ → List PathMap
named t k path inode =
    modify (modify t k (λ m. record m { avail = allocd })) k
      (λ m. record m { st_ino = pos inode; path = path })

-- get_mapping gives nothing, or a place of the table.
pub get_mapping-cases :
    (t : List PathMap)
    → (get_mapping t ≡ (minus_one, t))
      ⊎ ((k : ℕ) × (k < length t)
          × (get_mapping t ≡ (pos k, modify t k (λ m. record m { avail = allocd }))))
unfolding get_mapping
get_mapping-cases t = go (scan (λ m. m.avail == free) t 0) refl
  where
    go :
        (r : Option ℕ)
        → scan (λ m. m.avail == free) t 0 ≡ r
        → (get_mapping t ≡ (minus_one, t))
          ⊎ ((k : ℕ) × (k < length t)
              × (get_mapping t ≡ (pos k, modify t k (λ m. record m { avail = allocd }))))
    go none p = inl (rw (get_mapping, p) refl)
    go (some k) p = inr (k, scan-length _ t k p, rw (get_mapping, p) refl)

-- The path has no `%`.
abbrev pub NoPercent : List ℕ → Type 0
NoPercent [] = Unit
NoPercent (c ∷ cs) = (c ≢ 37) × NoPercent cs

formatted-NoPercent : (path : List ℕ) → NoPercent path → formatted path ≡ some path
unfolding formatted
formatted-NoPercent [] h = refl
formatted-NoPercent (c ∷ []) h =
    let other : (c == 37) ≡ false = ground (arith, h.0) in rw other refl
formatted-NoPercent (c ∷ b ∷ cs) h =
    let other : (c == 37) ≡ false = ground (arith, h.0) in
    rw (other, formatted-NoPercent (b ∷ cs) h.1) refl

pub enter_name-gives :
    (t : List PathMap) (k : ℕ) (path : List ℕ) (inode : ℕ)
    → NoPercent path
    → WhereSome
        (λ t'. t' ≡ modify t k (λ m. record m { st_ino = pos inode; path = path }))
        (enter_name t k path inode)
unfolding enter_name
enter_name-gives t k path inode plain =
    rw (enter_name, formatted-NoPercent path plain) (go (ltb (max_path_len - 1) (length path)))
  where
    go :
        (b : Bool)
        → WhereSome
            (λ t'. t' ≡ modify t k (λ m. record m { st_ino = pos inode; path = path }))
            (if b
              then none
              else some (modify t k (λ m. record m { st_ino = pos inode; path = path })))
    go true = tt
    go false = refl

-- The path leads to the inode.
abbrev pub Leads : List PathMap → List ℕ → ℕ → Type 0
Leads t path inode =
    (k : ℕ) × (m : PathMap) × (path_lookup t path ≡ pos k)
    × (get_elem? t k ≡ some m)
    × (m.st_ino ≡ pos inode)

pub named-Leads :
    (t : List PathMap) (k : ℕ) (path : List ℕ) (inode : ℕ)
    → k < length t
    → path_lookup t path ≡ minus_one
    → Leads (named t k path inode) path inode
unfolding path_lookup
named-Leads t k path inode l e =
    let first : IsFirst (λ m. same_text m.path path) (named t k path inode) k =
      IsFirst-modify (λ m. same_text m.path path) t k _ _ l (path_lookup-NoneOf t path e)
        (λ m. (same_text_iff path path).1 refl) in
    let (x, g) = get_elem?-length t k l in
    (
      k,
      record x { avail = allocd; st_ino = pos inode; path = path },
      ap or_minus_one (scan-IsFirst (λ m. same_text m.path path) (named t k path inode) 0 k first)
          ∙ ap pos (omega arith),
      get_elem?-modify_self _ k _ _ (get_elem?-modify_self t k _ x g),
      refl,
    )
