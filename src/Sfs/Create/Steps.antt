-- ===== src/Sfs/Create/Steps.antt =====
-- What holds of the result of steps of asst3/assignment3/src/sfs.c that can fail.
use cs.Base.{◌≡◌, subst, Option, none, some}
use cs.Sfs.Index.{◌>>=◌}

-- The predicate holds of the result, if there is one.
abbrev pub WhereSome {ℓ} : {A : Type 0} → (A → Type ℓ) → Option A → Type ℓ
WhereSome P none = Unit
WhereSome P (some a) = P a

pub WhereSome-bind :
    {A B : Type 0} (Q : A → Type 0) (P : B → Type 0) (r : Option A) (f : A → Option B)
    → WhereSome Q r
    → ((a : A) → Q a → WhereSome P (f a))
    → WhereSome P (r >>= f)
WhereSome-bind Q P none f q h = tt
WhereSome-bind Q P (some a) f q h = h a q

-- The step whose result does not matter.
pub WhereSome-then :
    {A B : Type 0} (P : B → Type 0) (r : Option A) (f : A → Option B)
    → ((a : A) → WhereSome P (f a))
    → WhereSome P (r >>= f)
WhereSome-then P none f h = tt
WhereSome-then P (some a) f h = h a

pub WhereSome-map :
    {A : Type 0} (Q P : A → Type 0) (r : Option A)
    → WhereSome Q r
    → ((a : A) → Q a → P a)
    → WhereSome P r
WhereSome-map Q P none q h = tt
WhereSome-map Q P (some a) q h = h a q

pub WhereSome-some :
    {A : Type 0} (P : A → Type 0) (r : Option A) (a : A) → r ≡ some a → WhereSome P r → P a
WhereSome-some P r a e h = subst (WhereSome P) e h
