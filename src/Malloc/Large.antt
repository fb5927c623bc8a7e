-- ===== src/Malloc/Large.antt =====
-- Requests of more than a page of asst2/mymalloc.c get enough pages wherever there are enough.
use cs.Base.{
  ℕ, ◌+◌, ◌*◌, ◌≤◌, ◌<◌, ◌≡◌, ◌≢◌, ◌⊎◌, refl, inl, inr, ap, subst, sym, ◌∙◌, Option, none, some,
  true, false, ◌/◌, ◌==◌, ltb, leb, arith, Bool-cases,
}
use mathlib.Core.Bool.{true≢false}
use mathlib.Core.Option.{some-injective, none-ne-some}
use cs.Malloc.{
  Meta, page_size, page_area_start, max_places, find_run, malloc_run, link_pages, find_block,
  pages_needed, malloc_at, mymalloc, exceeds, tot_size,
}
use cs.Malloc.Setup.{IsReady, num_pages, start_of}
use cs.Malloc.RoundTrip.{NearEnd, mymalloc-found}
use cs.Malloc.First.{IsFirst, find_block-IsFirst}
use cs.Malloc.Runs.{IsRun, Grants, pages_needed-positive, granted_address}
use cs.Malloc.Search.{AllFree, NoneBefore, find_run-Stops}

-- The call gives no address.
abbrev pub GivesNone : Option (Option ℕ × Meta) → Type 0
GivesNone r = (a : ℕ) (m' : Meta) → r ≢ some (some a, m')

malloc_run-address :
    (size i found end : ℕ) (saved : Option ℕ) (m : Meta)
    → IsReady m
    → pages_needed size ≢ 0
    → find_run max_places (pages_needed size) i 0 none m ≡ some (found, saved)
    → found ≡ pages_needed size
    → end ≤ num_pages
    → IsRun m end found saved
    → GivesNone (malloc_run size i m)
    → ⊥
unfolding malloc_run
malloc_run-address size i found end saved m v positive e all h (inl z) gives =
    absurd (positive (sym all ∙ z))
malloc_run-address size i found end saved m v positive e all h (inr (k, s, p, free)) gives =
    let enough : (pages_needed size == found) ≡ true = ground arith in
    gives (start_of k) (link_pages (pages_needed size + 1) k m)
      (rw (malloc_run, e, s, enough, v.starts k (omega (arith, p, h, all, positive))) refl)

malloc_run-NoneBefore :
    (size i : ℕ) (m : Meta)
    → IsReady m
    → i ≤ num_pages
    → pages_needed size ≢ 0
    → GivesNone (malloc_run size i m)
    → NoneBefore m i (pages_needed size) (num_pages + 1)
malloc_run-NoneBefore size i m v h positive gives =
    let ((found, saved), q, (end, b, run, c)) =
      find_run-Stops max_places i (pages_needed size) i 0 none m v h (omega arith) (omega arith)
        (inl refl) (λ k l free. omega arith) (λ k l e free. absurd (omega (arith, positive))) in
    elim c [
      | inl all ↦ absurd (malloc_run-address size i found end saved m v positive q all b run gives)
      | inr n ↦ n
    ]

-- No `needed` free pages lie in a row.
abbrev pub NoRun : Meta → ℕ → Type 0
NoRun m needed = (k : ℕ) → k + needed ≤ num_pages → ¬ AllFree m k (k + needed)

NoneBefore-NoRun :
    (m : Meta) (needed k : ℕ)
    → needed ≢ 0
    → ((j : ℕ) → 0 ≤ j → j < k → (m j).is_free ≡ false)
    → NoneBefore m k needed (num_pages + 1)
    → NoRun m needed
NoneBefore-NoRun m needed k positive used before j fits free = elim (Bool-cases (leb k j)) [
  | inl p ↦ before j (ground arith) (omega arith) free
  | inr p ↦
      true≢false
        (sym (free j (omega arith) (omega (arith, positive))) ∙ used j (omega arith) (ground arith))
]

malloc_at-large :
    (m : Meta) (size k : ℕ)
    → IsReady m
    → page_size < size
    → k < num_pages
    → ltb (page_area_start + 7920000) (start_of k + size) ≡ false
    → malloc_at size k m ≡ malloc_run size k m
unfolding malloc_at exceeds
malloc_at-large m size k v h inside near =
    let large : leb size page_size ≡ false = ground arith in
    rw (malloc_at, v.starts 0 (omega arith), v.starts k inside, exceeds, near, large) refl

malloc_at-NoRun :
    (m : Meta) (size k : ℕ)
    → IsReady m
    → page_size < size
    → IsFirst m 0 k
    → GivesNone (malloc_at size k m)
    → NearEnd m size ⊎ NoRun m (pages_needed size)
malloc_at-NoRun m size k v h first gives = elim (Bool-cases (k == num_pages)) [
  | inl e ↦ inl (λ j l free. absurd (ground (arith, first.3 j)))
  | inr e ↦
      let inside : k < num_pages = ground (arith, first.1) in
      elim (Bool-cases (ltb (page_area_start + 7920000) (start_of k + size))) [
        | inl far ↦ inl (λ j l free. ground (arith, first.3 j))
        | inr near ↦
            let positive = pages_needed-positive size h in
            inr (
              NoneBefore-NoRun m (pages_needed size) k positive first.3 (
                malloc_run-NoneBefore size k m v first.1 positive
                  (subst GivesNone (malloc_at-large m size k v h inside near) gives)))
      ]
]

-- The call gives the address of enough free pages, or none where there are none.
abbrev pub Settles : Meta → ℕ → ℕ → Option (Option ℕ × Meta) → Type 0
Settles m size n r =
    ((a : ℕ) × (m' : Meta) × (r ≡ some (some a, m')) × Grants m m' n a)
    ⊎ (GivesNone r × (NearEnd m size ⊎ NoRun m n))

pages_needed-ceiling :
    (size n : ℕ) → size ≤ n * page_size → n * page_size < size + page_size → pages_needed size ≡ n
unfolding pages_needed
pages_needed-ceiling size n h l = ground arith

Settles-pages_needed :
    (m : Meta) (size : ℕ)
    → IsReady m
    → page_size < size
    → size ≤ tot_size / 100
    → Settles m size (pages_needed size) (mymalloc size 0 m)
Settles-pages_needed m size v h fits = go (mymalloc size 0 m) refl
  where
    place : (k : ℕ) × (find_block max_places 0 m ≡ some k) × IsFirst m 0 k
    place = find_block-IsFirst max_places 0 m v (omega arith) (omega arith)

    none_left :
        GivesNone (mymalloc size 0 m)
        → GivesNone (mymalloc size 0 m) × (NearEnd m size ⊎ NoRun m (pages_needed size))
    none_left gives = (
      gives,
      malloc_at-NoRun m size place.0 v h place.2
          (subst GivesNone (mymalloc-found m size place.0 v fits place.1) gives),
    )

    go :
        (r : Option (Option ℕ × Meta))
        → mymalloc size 0 m ≡ r
        → Settles m size (pages_needed size) (mymalloc size 0 m)
    go none e = inr (none_left (λ a m' q. none-ne-some _ (sym e ∙ q)))
    go (some (none, m'')) e =
        inr (none_left (λ a m' q. none-ne-some _ (ap (λ x. x.0) (some-injective _ _ (sym e ∙ q)))))
    go (some (some a, m')) e = inl (a, m', e, granted_address size 0 a m m' v.numbered h e)

-- For the least number `n` of pages that hold a request: a request of a thread for more than a page, at
-- most a hundredth of the memory, once the pages are set up. It gives the address of a page `k` with `n`
-- free pages from `k` on: they are taken and linked then, with one page more, whether that one was free
-- or not, and no other metadata change. Or it gives no address, only where no `n` free pages lie in a row
-- or where every free page is so near the end that the request would pass byte 7920000 behind the start
-- of the first page.
pub mymalloc-Grants :
    (m : Meta) (size n : ℕ)
    → IsReady m
    → page_size < size
    → size ≤ tot_size / 100
    → size ≤ n * page_size
    → n * page_size < size + page_size
    → Settles m size n (mymalloc size 0 m)
mymalloc-Grants m size n v h fits enough least =
    subst (λ k. Settles m size k (mymalloc size 0 m)) (pages_needed-ceiling size n enough least)
      (Settles-pages_needed m size v h fits)
