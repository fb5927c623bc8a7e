-- ===== src/Paging/Places.antt =====
-- The places of free pages that page_malloc collects.
use cs.Base.{
  ℕ, zero, suc, ◌+◌, ◌-◌, ◌≤◌, ◌≡◌, refl, subst, List, [], ◌∷◌, some, true, false, if◌then◌else◌,
  Bool-cases, inl, inr, length, get_elem?, arith,
}
use Prim.Native.Nat.{min}
use cs.Paging.{Page, find_free}

abbrev pub free_one : Page → ℕ
free_one p = if p.free then 1 else 0

-- The number of free pages.
abbrev pub free_count : List Page → ℕ
free_count [] = 0
free_count (p ∷ ps) = free_one p + free_count ps

pub length-find_free :
    (ps : List Page) (i n : ℕ) → length (find_free ps i n) ≡ min n (free_count ps)
unfolding find_free
length-find_free [] i n = omega arith
length-find_free (p ∷ ps) i zero = omega arith
length-find_free (p ∷ ps) i (suc n) = elim (Bool-cases p.free) [
  | inl a ↦ rw (a) (omega (arith, length-find_free ps (i + 1) n))
  | inr b ↦ rw (b) (omega (arith, length-find_free ps (i + 1) (suc n)))
]

unfoldable pub IsFreeAt : List Page → ℕ → Type 0
IsFreeAt ps k = (p : Page) × (get_elem? ps k ≡ some p) × (p.free ≡ true)

-- The places are in order, from `i` on.
abbrev pub AreAbove : ℕ → List ℕ → Type 0
AreAbove i [] = Unit
AreAbove i (k ∷ ks) = (i ≤ k) × AreAbove (k + 1) ks

-- The places, counted from `i`, hold free pages.
abbrev pub AreFree : List Page → ℕ → List ℕ → Type 0
AreFree ps i [] = Unit
AreFree ps i (k ∷ ks) = (i ≤ k) × IsFreeAt ps (k - i) × AreFree ps i ks

AreAbove-weaken : (i j : ℕ) (ks : List ℕ) → i ≤ j → AreAbove j ks → AreAbove i ks
AreAbove-weaken i j [] h a = tt
AreAbove-weaken i j (k ∷ ks) h a = (omega arith, a.1)

pub find_free-AreAbove : (ps : List Page) (i n : ℕ) → AreAbove i (find_free ps i n)
unfolding find_free
find_free-AreAbove [] i n = tt
find_free-AreAbove (p ∷ ps) i zero = tt
find_free-AreAbove (p ∷ ps) i (suc n) = elim (Bool-cases p.free) [
  | inl a ↦ rw (a) (omega arith, find_free-AreAbove ps (i + 1) n)
  | inr b ↦ rw (b) (
      AreAbove-weaken i (i + 1) (find_free ps (i + 1) (suc n)) (omega arith)
        (find_free-AreAbove ps (i + 1) (suc n)))
]

AreFree-cons :
    (p : Page) (ps : List Page) (i : ℕ) (ks : List ℕ)
    → AreFree ps (i + 1) ks
    → AreFree (p ∷ ps) i ks
unfolding IsFreeAt
AreFree-cons p ps i [] a = tt
AreFree-cons p ps i (k ∷ ks) (le, f, a) = (
  omega arith,
  subst (IsFreeAt (p ∷ ps)) {x = suc (k - (i + 1))} {y = k - i} (omega (arith, le)) f,
  AreFree-cons p ps i ks a,
)

find_free-yes :
    (p : Page) (ps : List Page) (i n : ℕ)
    → p.free ≡ true
    → i ∷ find_free ps (i + 1) n ≡ find_free (p ∷ ps) i (suc n)
unfolding find_free
find_free-yes p ps i n a = rw (a) refl

find_free-no :
    (p : Page) (ps : List Page) (i n : ℕ)
    → p.free ≡ false
    → find_free ps (i + 1) (suc n) ≡ find_free (p ∷ ps) i (suc n)
unfolding find_free
find_free-no p ps i n a = rw (a) refl

pub find_free-AreFree : (ps : List Page) (i n : ℕ) → AreFree ps i (find_free ps i n)
unfolding find_free IsFreeAt
find_free-AreFree [] i n = tt
find_free-AreFree (p ∷ ps) i zero = tt
find_free-AreFree (p ∷ ps) i (suc n) = elim (Bool-cases p.free) [
  | inl a ↦ subst (AreFree (p ∷ ps) i) (find_free-yes p ps i n a) (
    omega arith,
    subst (IsFreeAt (p ∷ ps)) {x = 0} {y = i - i} (omega arith) (p, refl, a),
    AreFree-cons p ps i (find_free ps (i + 1) n) (find_free-AreFree ps (i + 1) n),
  )
  | inr b ↦
      subst (AreFree (p ∷ ps) i) (find_free-no p ps i n b)
        (AreFree-cons p ps i (find_free ps (i + 1) (suc n)) (find_free-AreFree ps (i + 1) (suc n)))
]
