-- ===== src/Malloc/First.antt =====
-- The search for one free page of asst2/mymalloc.c.
use cs.Base.{
  ℕ, zero, suc, ◌+◌, ◌*◌, ◌≤◌, ◌<◌, ◌≡◌, refl, ◌≢◌, inl, inr, ap, subst, ◌∙◌, none, some, true,
  false, ltb, ◌==◌, Bool-cases, arith,
}
use cs.Malloc.{Meta, lib_page_start, block_bytes, initialise, find_block}
use cs.Malloc.Setup.{IsReady, num_pages}

pub initialise-ready : (m : Meta) → (m 0).page_num ≢ 0 → initialise m ≡ m
unfolding initialise
initialise-ready m h =
    let set_up : ((m 0).page_num == 0) ≡ false = ground (arith, h) in rw (set_up) refl

-- The search of a thread from place `i` on ends at place `k`: a free page, or the place behind all pages,
-- past no free page.
abbrev pub IsFirst : Meta → ℕ → ℕ → Type 0
IsFirst m i k =
    (i ≤ k)
    × (k ≤ num_pages)
    × (k < num_pages → (m k).is_free ≡ true)
    × ((j : ℕ) → i ≤ j → j < k → (m j).is_free ≡ false)

pub find_block-IsFirst :
    (fuel i : ℕ) (m : Meta)
    → IsReady m
    → i ≤ num_pages
    → num_pages < i + fuel
    → (k : ℕ) × (find_block fuel i m ≡ some k) × IsFirst m i k
unfolding find_block
find_block-IsFirst zero i m v h l = absurd (omega arith)
find_block-IsFirst (suc fuel) i m v h l = elim (Bool-cases (i == num_pages)) [
  | inl p ↦
      let same : i ≡ num_pages = ground arith in
      let ends : (m i).next ≡ none = ap (λ j. (m j).next) same ∙ v.last in
      let stop : find_block (suc fuel) i m ≡ some i = ground arith in
      (
        i,
        stop,
        (
          omega arith,
          omega arith,
          (λ n. absurd (omega (arith, same, n))),
          λ j b c. absurd (omega arith),
        ),
      )
  | inr p ↦
      let inside : i ≢ num_pages = ground arith in
      let near : ltb (i * block_bytes) lib_page_start ≡ true = ground arith in
      let link : (m i).next ≡ some (i + 1) = v.linked i (omega (arith, inside)) in
      elim (Bool-cases (m i).is_free) [
        | inl free ↦
            let stop : find_block (suc fuel) i m ≡ some i = ground arith in
            (i, stop, (omega arith, omega arith, (λ n. free), λ j b c. absurd (omega arith)))
        | inr used ↦
            let (k, e, (a, b, c, first)) =
              find_block-IsFirst fuel (i + 1) m v (omega (arith, inside)) (omega arith) in
            let on : find_block (suc fuel) i m ≡ some k = ground arith in
            (
              k,
              on,
              (
                omega arith,
                b,
                c,
                λ j x y. elim (Bool-cases (i == j)) [
                  | inl q ↦
                      (let here : i ≡ j = ground arith in
                        subst (λ n. (m n).is_free ≡ false) here used)
                  | inr q ↦ (let later : i ≢ j = ground arith in first j (omega (arith, later)) y)
                ],
              ),
            )
      ]
]
