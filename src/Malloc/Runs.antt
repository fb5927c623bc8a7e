-- ===== src/Malloc/Runs.antt =====
-- Requests of more than a page, in asst2/mymalloc.c.
use cs.Base.{
  ℕ, zero, suc, ◌+◌, ◌<◌, ◌≡◌, ◌≢◌, ◌⊎◌, refl, inl, inr, ap, subst, sym, ◌∙◌, Option, none, some,
  Bool, true, false, not, ◌/◌, ◌&&◌, ◌||◌, ◌==◌, ltb, leb, if◌then◌else◌, arith, Bool-cases,
  Option-cases,
}
use cs.Malloc.First.{initialise-ready}
use mathlib.Core.Option.{some-injective, none-ne-some}
use cs.Malloc.{
  MemBlock, Meta, modify, is_some, page_size, max_places, count_page, find_run, link_pages,
  malloc_run, pages_needed, malloc_at, malloc_ready, mymalloc, exceeds, find_place, tot_size,
}

-- `found` pages in a row are free in front of place `i`, the first of them `saved`.
abbrev pub IsRun : Meta → ℕ → ℕ → Option ℕ → Type 0
IsRun m i found saved =
    (found ≡ 0)
    ⊎ ((k : ℕ) × (saved ≡ some k)
        × (k + found ≡ i)
        × ((j : ℕ) → j < found → (m (k + j)).is_free ≡ true))

pub count_page-IsRun :
    (m : Meta) (i found : ℕ) (saved : Option ℕ) (b : Bool)
    → (m i).is_free ≡ b
    → IsRun m i found saved
    → IsRun m (i + 1) (count_page b i found saved).0 (count_page b i found saved).1
unfolding count_page
count_page-IsRun m i found saved false e r = inl refl
count_page-IsRun m i zero saved true e r =
    inr (i, refl, refl, λ j h. subst (λ n. (m n).is_free ≡ true) (omega arith) e)
count_page-IsRun m i (suc found) saved true e (inl z) = absurd (omega (arith, z))
count_page-IsRun m i (suc found) saved true e (inr (k, s, p, h)) = inr (
  k,
  s,
  omega arith,
  λ j lt. elim (Bool-cases (j == suc found)) [
    | inl q ↦ subst (λ n. (m n).is_free ≡ true) (ground arith) e
    | inr q ↦ h j (ground arith)
  ],
)

-- What the search finds is such a run.
find_run-IsRun :
    (fuel needed i found : ℕ) (saved : Option ℕ) (m : Meta) (r : ℕ × Option ℕ)
    → IsRun m i found saved
    → find_run fuel needed i found saved m ≡ some r
    → (end : ℕ) × IsRun m end r.0 r.1
unfolding find_run
find_run-IsRun zero needed i found saved m r run e = cc
find_run-IsRun (suc fuel) needed i found saved m r run e =
    elim (Bool-cases (not (is_some (m i).next) || needed == found)) [
      | inl a ↦
          let e' : some (found, saved) ≡ some r = rw a at e in
          (i, subst (λ p. IsRun m i p.0 p.1) (some-injective _ _ e') run)
      | inr a ↦
          find_run-IsRun fuel needed (i + 1) _ _ m r
            (count_page-IsRun m i found saved (m i).is_free refl run) (rw a at e)
    ]

-- The metadata of a page that the loop has linked.
abbrev linked : MemBlock → MemBlock
linked b = record b { next_page = b.next; is_free = false }

-- The pages linked are those from `i` on, and no others.
link_pages-at :
    (n i : ℕ) (m : Meta) (j : ℕ)
    → link_pages n i m j ≡ (if leb i j && ltb j (i + n) then linked (m j) else m j)
unfolding link_pages
link_pages-at zero i m j =
    let a : (leb i j && ltb j (i + 0)) ≡ false = ground arith in rw (link_pages, a) refl
link_pages-at (suc n) i m j = elim (Bool-cases (i == j)) [
  | inl e ↦
      let before : (leb (i + 1) j && ltb j (i + 1 + n)) ≡ false = ground arith in
      let inside : (leb i j && ltb j (i + suc n)) ≡ true = ground arith in
      let same : i ≡ j = ground arith in
      rw (link_pages, link_pages-at n (i + 1) (modify m i linked) j, before, inside, e)
        (ap (λ k. linked (m k)) same)
  | inr e ↦
      let range : (leb (i + 1) j && ltb j (i + 1 + n)) ≡ (leb i j && ltb j (i + suc n)) =
        ground arith in
      rw (link_pages, link_pages-at n (i + 1) (modify m i linked) j, range, e) refl
]

pub pages_needed-positive : (size : ℕ) → page_size < size → pages_needed size ≢ 0
unfolding pages_needed
pages_needed-positive size h = ground arith

-- The pages from place `k` on that a request needs were free, and the first of them starts at `a`. They
-- are taken and linked now, with the page behind them, and nothing else has changed.
abbrev pub Grants : Meta → Meta → ℕ → ℕ → Type 0
Grants m m' needed a =
    (k : ℕ) × ((m k).alloc_start ≡ some a)
    × ((j : ℕ) → j < needed → (m (k + j)).is_free ≡ true)
    × ((j : ℕ) → m' j ≡ (if leb k j && ltb j (k + (needed + 1)) then linked (m j) else m j))

granted :
    (m m' : Meta) (needed found k a end : ℕ)
    → needed ≢ 0
    → IsRun m end found (some k)
    → (if needed == found then (m k).alloc_start else none) ≡ some a
    → link_pages (needed + 1) k m ≡ m'
    → Grants m m' needed a
granted m m' needed found k a end h run s t = elim (Bool-cases (needed == found)) [
  | inl e ↦
      let all : found ≡ needed = ground arith in
      elim run [
        | inl z ↦ absurd (omega (arith, all, z, h))
        | inr r ↦ (
          k,
          rw e at s,
          λ j lt.
              subst (λ n. (m (n + j)).is_free ≡ true) (sym (some-injective _ _ r.1))
                (r.3 j (omega (arith, all, lt))),
          λ j. sym (ap (λ n. n j) t) ∙ link_pages-at (needed + 1) k m j,
        )
      ]
  | inr e ↦ absurd (none-ne-some _ (rw e at s))
]

malloc_run-Grants :
    (size i a : ℕ) (m m' : Meta)
    → page_size < size
    → malloc_run size i m ≡ some (some a, m')
    → Grants m m' (pages_needed size) a
unfolding malloc_run
malloc_run-Grants size i a m m' h e = go (find_run max_places (pages_needed size) i 0 none m) refl
  where
    go :
        (r : Option (ℕ × Option ℕ))
        → find_run max_places (pages_needed size) i 0 none m ≡ r
        → Grants m m' (pages_needed size) a
    go none q = absurd (none-ne-some _ (rw (malloc_run, q) at e))
    go (some (found, none)) q = absurd (none-ne-some _ (rw (malloc_run, q) at e))
    go (some (found, some k)) q =
        let p = some-injective _ _ (rw (malloc_run, q) at e) in
        let (end, run) =
          find_run-IsRun max_places (pages_needed size) i 0 none m (found, some k) (inl refl) q in
        granted m m' (pages_needed size) found k a end (pages_needed-positive size h) run
          (ap (λ x. x.0) p) (ap (λ x. x.1) p)

malloc_at-Grants :
    (size i a : ℕ) (m m' : Meta)
    → page_size < size
    → malloc_at size i m ≡ some (some a, m')
    → Grants m m' (pages_needed size) a
unfolding malloc_at
malloc_at-Grants size i a m m' h e = elim (Option-cases (m 0).alloc_start) [
  | inl n ↦ absurd (none-ne-some _ (rw (malloc_at, n) at e))
  | inr (first, f) ↦ elim (Bool-cases (exceeds (m i).alloc_start size first)) [
    | inl x ↦
        absurd (none-ne-some _ (ap (λ r. r.0) (some-injective _ _ (rw (malloc_at, f, x) at e))))
    | inr x ↦
        let large : leb size page_size ≡ false = ground arith in
        malloc_run-Grants size i a m m' h (rw (malloc_at, f, x, large) at e)
  ]
]

-- An address that a request for more than a page gets is that of such pages.
pub granted_address :
    (size request a : ℕ) (m m' : Meta)
    → (m 0).page_num ≢ 0
    → page_size < size
    → mymalloc size request m ≡ some (some a, m')
    → Grants m m' (pages_needed size) a
unfolding mymalloc malloc_ready
granted_address size request a m m' ready h e =
    let e' : malloc_ready size request m ≡ some (some a, m') =
      sym (ap (malloc_ready size request) (initialise-ready m ready)) ∙ e in
    elim (Bool-cases (ltb (tot_size / 100) size)) [
      | inl x ↦ absurd (none-ne-some _ (ap (λ r. r.0) (some-injective _ _ (rw x at e'))))
      | inr x ↦ elim (Option-cases (find_place request m)) [
        | inl n ↦ absurd (none-ne-some _ (rw (x, n) at e'))
        | inr (i, f) ↦ malloc_at-Grants size i a m m' h (rw (x, f) at e')
      ]
    ]
