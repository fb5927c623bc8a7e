-- ===== src/Malloc/Search.antt =====
-- How the search for pages in a row of asst2/mymalloc.c ends.
use cs.Base.{
  ℕ, zero, suc, ◌+◌, ◌≤◌, ◌<◌, ◌≡◌, ◌≢◌, ◌⊎◌, refl, inl, inr, ap, subst, sym, ◌∙◌, Option, none,
  some, Bool, true, false, ◌==◌, leb, arith, Bool-cases,
}
use mathlib.Core.Bool.{true≢false}
use cs.Malloc.{Meta, count_page, find_run}
use cs.Malloc.Setup.{IsReady, num_pages}
use cs.Malloc.Runs.{IsRun, count_page-IsRun}

-- All pages from place `k` up to place `i` are free.
abbrev pub AllFree : Meta → ℕ → ℕ → Type 0
AllFree m k i = (j : ℕ) → k ≤ j → j < i → (m j).is_free ≡ true

-- No more than `found` pages in front of place `i`, from place `first` on, are free in a row.
abbrev IsLongest : Meta → ℕ → ℕ → ℕ → Type 0
IsLongest m first i found = (k : ℕ) → first ≤ k → AllFree m k i → i ≤ k + found

count_page-IsLongest :
    (m : Meta) (first i found : ℕ) (saved : Option ℕ) (b : Bool)
    → (m i).is_free ≡ b
    → IsLongest m first i found
    → IsLongest m first (i + 1) (count_page b i found saved).0
unfolding count_page
count_page-IsLongest m first i found saved false e h k l free = elim (Bool-cases (leb k i)) [
  | inl p ↦ absurd (true≢false (sym (free i (ground arith) (omega arith)) ∙ e))
  | inr p ↦ ground arith
]
count_page-IsLongest m first i zero saved true e h k l free =
    let old = h k l (λ j x y. free j x (omega arith)) in omega arith
count_page-IsLongest m first i (suc found) saved true e h k l free =
    let old = h k l (λ j x y. free j x (omega arith)) in omega arith

count_page-bound :
    (needed i found : ℕ) (saved : Option ℕ) (b : Bool)
    → found < needed
    → (count_page b i found saved).0 ≤ needed
unfolding count_page
count_page-bound needed i found saved false h = omega arith
count_page-bound needed i zero saved true h = omega arith
count_page-bound needed i (suc found) saved true h = omega arith

-- No `needed` pages in a row that end in front of place `i` are free.
abbrev pub NoneBefore : Meta → ℕ → ℕ → ℕ → Type 0
NoneBefore m first needed i = (k : ℕ) → first ≤ k → k + needed < i → AllFree m k (k + needed) → ⊥

NoneBefore-suc :
    (m : Meta) (first needed i found : ℕ)
    → found < needed
    → IsLongest m first i found
    → NoneBefore m first needed i
    → NoneBefore m first needed (i + 1)
NoneBefore-suc m first needed i found h longest before k l e free =
    elim (Bool-cases (k + needed == i)) [
      | inl p ↦
          let ends : k + needed ≡ i = ground arith in
          let bound = longest k l (subst (AllFree m k) ends free) in
          absurd (omega (arith, ends, bound))
      | inr p ↦
          (let other : k + needed ≢ i = ground arith in before k l (omega (arith, other)) free)
    ]

-- The search stops, with as many pages as it needs or where no such pages are left.
abbrev Stops : Meta → ℕ → ℕ → ℕ × Option ℕ → Type 0
Stops m first needed r =
    (end : ℕ) × (end ≤ num_pages)
    × IsRun m end r.0 r.1
    × ((r.0 ≡ needed) ⊎ NoneBefore m first needed (num_pages + 1))

pub find_run-Stops :
    (fuel first needed i found : ℕ) (saved : Option ℕ) (m : Meta)
    → IsReady m
    → i ≤ num_pages
    → num_pages < i + fuel
    → found ≤ needed
    → IsRun m i found saved
    → IsLongest m first i found
    → NoneBefore m first needed i
    → (r : ℕ × Option ℕ) × (find_run fuel needed i found saved m ≡ some r) × Stops m first needed r
unfolding find_run
find_run-Stops zero first needed i found saved m v h f le run longest before = absurd (omega arith)
find_run-Stops (suc fuel) first needed i found saved m v h f le run longest before =
    elim (Bool-cases (needed == found)) [
      | inl e ↦
          let all : found ≡ needed = ground arith in
          ((found, saved), ground arith, (i, h, run, inl all))
      | inr e ↦
          let fewer : found < needed = ground arith in
          let before' = NoneBefore-suc m first needed i found fewer longest before in
          elim (Bool-cases (i == num_pages)) [
            | inl p ↦
                let same : i ≡ num_pages = ground arith in
                let ends : (m i).next ≡ none = ap (λ j. (m j).next) same ∙ v.last in
                (
                  (found, saved),
                  rw (find_run, ends) refl,
                  (i, h, run, inr (subst (λ n. NoneBefore m first needed (n + 1)) same before')),
                )
            | inr p ↦
                let inside : i < num_pages = ground (arith, h) in
                let link : (m i).next ≡ some (i + 1) = v.linked i inside in
                let (r, q, stops) =
                  find_run-Stops fuel first needed (i + 1)
                    (count_page (m i).is_free i found saved).0
                    (count_page (m i).is_free i found saved).1 m v (omega arith) (omega arith)
                    (count_page-bound needed i found saved (m i).is_free fewer)
                    (count_page-IsRun m i found saved (m i).is_free refl run)
                    (count_page-IsLongest m first i found saved (m i).is_free refl longest)
                    before' in
                (r, rw (find_run, link, e) q, stops)
          ]
    ]
