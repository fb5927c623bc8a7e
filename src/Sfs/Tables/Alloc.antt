-- ===== src/Sfs/Tables/Alloc.antt =====
-- What the scans of the tables find, and what the allocations leave alone.
use cs.Base.{
  length, ℕ, zero, suc, ◌+◌, ◌<◌, ◌≡◌, refl, ◌≢◌, ◌↔◌, ◌⊎◌, inl, inr, ap, List, [], ◌∷◌, ℤ, pos,
  negsuc, Option, none, some, Bool, true, false, ◌==◌, get_elem?, arith, Bool-cases,
}
use cs.Sfs.State.{PathMap, allocd, free}
use cs.Sfs.Tables.{scan, modify, or_minus_one, get_block, path_lookup, same_text}

-- What holds of 0 and of the successors of all numbers below `i` holds of all below `suc i`.
below_suc :
    (Q : ℕ → Type 0) (i : ℕ) → Q 0 → ((j : ℕ) → j < i → Q (suc j)) → (j : ℕ) → j < suc i → Q j
below_suc Q i z s zero lt = z
below_suc Q i z s (suc j) lt = s j (omega arith)

module _ {ℓ} {A : Type ℓ} (p : A → Bool) where
  -- `j` is the first place in the list whose entry passes the test.
  abbrev pub IsFirst : List A → ℕ → Type 0
  IsFirst [] j = ⊥
  IsFirst (x ∷ xs) zero = p x ≡ true
  IsFirst (x ∷ xs) (suc j) = (p x ≡ false) × IsFirst xs j

  -- No entry passes the test.
  abbrev pub NoneOf : List A → Type 0
  NoneOf [] = Unit
  NoneOf (x ∷ xs) = (p x ≡ false) × NoneOf xs

  abbrev pub Found : List A → ℕ → Option ℕ → Type 0
  Found xs i none = NoneOf xs
  Found xs i (some k) = (j : ℕ) × (k ≡ i + j) × IsFirst xs j

  Found-cons :
      (x : A) (xs : List A) (i : ℕ) (r : Option ℕ)
      → p x ≡ false
      → Found xs (i + 1) r
      → Found (x ∷ xs) i r
  Found-cons x xs i none e f = (e, f)
  Found-cons x xs i (some k) e (j, q, f) = (suc j, omega arith, (e, f))

  pub scan-Found : (xs : List A) (i : ℕ) → Found xs i (scan p xs i)
  unfolding scan
  scan-Found [] i = tt
  scan-Found (x ∷ xs) i = elim (Bool-cases (p x)) [
    | inl e ↦ rw e (0, omega arith, e)
    | inr e ↦ rw e (Found-cons x xs i _ e (scan-Found xs (i + 1)))
  ]

module _ {ℓ} {A : Type ℓ} where
  pub get_elem?-modify_self :
      (xs : List A) (i : ℕ) (f : A → A) (x : A)
      → get_elem? xs i ≡ some x
      → get_elem? (modify xs i f) i ≡ some (f x)
  unfolding modify
  get_elem?-modify_self [] i f x e = cc
  get_elem?-modify_self (y ∷ xs) zero f x e = ground arith
  get_elem?-modify_self (y ∷ xs) (suc i) f x e = get_elem?-modify_self xs i f x e

  pub get_elem?-modify_ne :
      (xs : List A) (i j : ℕ) (f : A → A) → i ≢ j → get_elem? (modify xs i f) j ≡ get_elem? xs j
  unfolding modify
  get_elem?-modify_ne [] i j f n = refl
  get_elem?-modify_ne (y ∷ xs) zero zero f n = absurd (n refl)
  get_elem?-modify_ne (y ∷ xs) zero (suc j) f n = refl
  get_elem?-modify_ne (y ∷ xs) (suc i) zero f n = refl
  get_elem?-modify_ne (y ∷ xs) (suc i) (suc j) f n =
      get_elem?-modify_ne xs i j f (λ e. n (ap suc e))

length-modify {ℓ} :
    {A : Type ℓ} (xs : List A) (i : ℕ) (f : A → A) → length (modify xs i f) ≡ length xs
unfolding modify
length-modify [] i f = refl
length-modify (x ∷ xs) zero f = refl
length-modify (x ∷ xs) (suc i) f = ap suc (length-modify xs i f)

pub length-get_block : (t t' : List ℕ) (b : ℤ) → get_block t ≡ some (b, t') → length t' ≡ length t
unfolding get_block
length-get_block t t' b e = go (scan (λ b. b == free) t 0) refl
  where
    go : (r : Option ℕ) → scan (λ b. b == free) t 0 ≡ r → length t' ≡ length t
    go none p = absurd (ground (arith, p))
    go (some k) p = ground (arith, p, length-modify t k (λ b. allocd))

IsFirst-free :
    (t : List ℕ) (i : ℕ)
    → IsFirst (λ b. b == free) t i
    → (get_elem? t i ≡ some free) × ((j : ℕ) → j < i → get_elem? t j ≢ some free)
IsFirst-free [] i f = absurd f
IsFirst-free (x ∷ t) zero f = (ground arith, λ j lt. absurd (omega arith))
IsFirst-free (x ∷ t) (suc i) f =
    let (found, before) = IsFirst-free t i f.1 in
    (found, below_suc (λ j. get_elem? (x ∷ t) j ≢ some free) i (ground arith) before)

NoneOf-free : (t : List ℕ) → NoneOf (λ b. b == free) t → (j : ℕ) → get_elem? t j ≢ some free
NoneOf-free [] f j = ground arith
NoneOf-free (x ∷ t) f zero = ground arith
NoneOf-free (x ∷ t) f (suc j) = NoneOf-free t f.1 j

-- What get_block does: it faults and every block is taken, or it gives the first free block, which
-- is taken afterwards, and leaves all others as they were.
pub get_block_lem :
    (t : List ℕ)
    → ((get_block t ≡ none) × ((j : ℕ) → get_elem? t j ≢ some free))
      ⊎ ((i : ℕ) × (t' : List ℕ) × (get_block t ≡ some (pos i, t'))
          × (get_elem? t i ≡ some free)
          × ((j : ℕ) → j < i → get_elem? t j ≢ some free)
          × (get_elem? t' i ≡ some allocd)
          × ((j : ℕ) → i ≢ j → get_elem? t' j ≡ get_elem? t j))
unfolding get_block
get_block_lem t = go (scan (λ b. b == free) t 0) refl (scan-Found (λ b. b == free) t 0)
  where
    go :
        (r : Option ℕ)
        → scan (λ b. b == free) t 0 ≡ r
        → Found (λ b. b == free) t 0 r
        → ((get_block t ≡ none) × ((j : ℕ) → get_elem? t j ≢ some free))
          ⊎ ((i : ℕ) × (t' : List ℕ) × (get_block t ≡ some (pos i, t'))
              × (get_elem? t i ≡ some free)
              × ((j : ℕ) → j < i → get_elem? t j ≢ some free)
              × (get_elem? t' i ≡ some allocd)
              × ((j : ℕ) → i ≢ j → get_elem? t' j ≡ get_elem? t j))
    go none e f = inl (rw (e, get_block) refl, NoneOf-free t f)
    go (some k) e (j, q, f) =
        let p : k ≡ j = omega arith in
        let g = IsFirst-free t j f in
        inr (
          j,
          modify t j (λ b. allocd),
          rw (e, get_block, p) refl,
          g.0,
          g.1,
          get_elem?-modify_self t j (λ b. allocd) free g.0,
          λ l n. get_elem?-modify_ne t j l (λ b. allocd) n,
        )

pub same_text_iff : (xs ys : List ℕ) → (same_text xs ys ≡ true) ↔ (xs ≡ ys)
unfolding same_text
same_text_iff [] [] = (λ e. refl, λ e. refl)
same_text_iff [] (y ∷ ys) = (λ e. cc, λ e. cc)
same_text_iff (x ∷ xs) [] = (λ e. cc, λ e. cc)
same_text_iff (x ∷ xs) (y ∷ ys) =
    (ground (arith, (same_text_iff xs ys).0), ground (arith, (same_text_iff xs ys).1))

-- The name that the entry at `i` of the name table holds.
abbrev pub path_at : List PathMap → ℕ → Option (List ℕ)
path_at [] i = none
path_at (m ∷ t) zero = some m.path
path_at (m ∷ t) (suc i) = path_at t i

IsFirst-path :
    (path : List ℕ) (t : List PathMap) (i : ℕ)
    → IsFirst (λ m. same_text m.path path) t i
    → (path_at t i ≡ some path) × ((j : ℕ) → j < i → path_at t j ≢ some path)
IsFirst-path path [] i f = absurd f
IsFirst-path path (m ∷ t) zero f =
    (ap some ((same_text_iff m.path path).0 f), λ j lt. absurd (omega arith))
IsFirst-path path (m ∷ t) (suc i) f =
    let (found, before) = IsFirst-path path t i f.1 in
    (
      found,
      below_suc (λ j. path_at (m ∷ t) j ≢ some path) i (ground (arith, same_text_iff m.path path))
          before,
    )

NoneOf-path :
    (path : List ℕ) (t : List PathMap)
    → NoneOf (λ m. same_text m.path path) t
    → (j : ℕ) → path_at t j ≢ some path
NoneOf-path path [] f j = ground arith
NoneOf-path path (m ∷ t) f zero = ground (arith, same_text_iff m.path path)
NoneOf-path path (m ∷ t) f (suc j) = NoneOf-path path t f.1 j

-- What the result of path_lookup says of the name table.
abbrev pub Looks : List PathMap → List ℕ → ℤ → Type 0
Looks t path (pos i) = (path_at t i ≡ some path) × ((j : ℕ) → j < i → path_at t j ≢ some path)
Looks t path (negsuc n) = (j : ℕ) → path_at t j ≢ some path

-- path_lookup gives the first entry of the name table that holds the path, and -1 only if no entry
-- holds it.
pub path_lookup-Looks : (t : List PathMap) (path : List ℕ) → Looks t path (path_lookup t path)
unfolding path_lookup
path_lookup-Looks t path = go (scan (λ m. same_text m.path path) t 0) (scan-Found _ t 0)
  where
    go : (r : Option ℕ) → Found (λ m. same_text m.path path) t 0 r → Looks t path (or_minus_one r)
    go none f = NoneOf-path path t f
    go (some k) (j, q, f) = let p : k ≡ j = omega arith in rw p (IsFirst-path path t j f)
