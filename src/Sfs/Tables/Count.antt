-- ===== src/Sfs/Tables/Count.antt =====
-- How many blocks get_block of asst3/assignment3/src/sfs.c can still give.
use cs.Base.{
  ℕ, zero, suc, ◌+◌, ◌<◌, ◌≡◌, ◌≢◌, refl, ap, subst, sym, ◌∙◌, List, [], ◌∷◌, pos, Option, none,
  some, ◌==◌, if◌then◌else◌, get_elem?, arith, inl, inr,
}
use cs.Sfs.State.{allocd, free}
use cs.Sfs.Tables.{get_block, modify, scan}
use cs.Sfs.Tables.Alloc.{get_block_lem}

-- The number of free blocks in the table.
abbrev pub count_free : List ℕ → ℕ
count_free [] = 0
count_free (b ∷ t) = (if b == free then 1 else 0) + count_free t

none_free : (t : List ℕ) → ((j : ℕ) → get_elem? t j ≢ some free) → count_free t ≡ 0
none_free [] h = refl
none_free (b ∷ t) h = ground (arith, h 0, none_free t (λ j. h (suc j)))

count_free-modify :
    (t : List ℕ) (i : ℕ)
    → get_elem? t i ≡ some free
    → count_free t ≡ suc (count_free (modify t i (λ b. allocd)))
unfolding modify
count_free-modify [] i e = absurd (ground arith)
count_free-modify (b ∷ t) zero e = ground arith
count_free-modify (b ∷ t) (suc i) e = omega (arith, count_free-modify t i e)

-- get_block takes one free block, if there is one.
pub count_free-get_block :
    (t : List ℕ)
    → 0 < count_free t
    → (i : ℕ) × (t' : List ℕ) × (get_block t ≡ some (pos i, t'))
      × (get_elem? t i ≡ some free)
      × (get_elem? t' i ≡ some allocd)
      × ((j : ℕ) → i ≢ j → get_elem? t' j ≡ get_elem? t j)
      × (count_free t ≡ suc (count_free t'))
unfolding get_block
count_free-get_block t h = elim (get_block_lem t) [
  | inl (e, n) ↦ absurd (omega (arith, none_free t n))
  | inr (i, t', e, f, b, a, o) ↦
      (i, t', e, f, a, o, fewer i t' e f (scan (λ b. b == free) t 0) refl)
]
  where
    fewer :
        (i : ℕ) (t' : List ℕ)
        → get_block t ≡ some (pos i, t')
        → get_elem? t i ≡ some free
        → (r : Option ℕ) → scan (λ b. b == free) t 0 ≡ r
        → count_free t ≡ suc (count_free t')
    fewer i t' e f none p = absurd (ground (arith, p))
    fewer i t' e f (some k) p =
        let q : k ≡ i = ground (arith, p) in
        let r : modify t k (λ b. allocd) ≡ t' = ground (arith, p) in
        subst (λ x. count_free t ≡ suc (count_free x))
          (ap (λ j. modify t j (λ b. allocd)) (sym q) ∙ r) (count_free-modify t i f)
