-- ===== src/Malloc/Setup.antt =====
-- The metadata after the first call of mymalloc.
use cs.Base.{
  ℕ, zero, suc, ◌+◌, ◌-◌, ◌*◌, ◌≤◌, ◌<◌, ◌≡◌, refl, ◌≢◌, inl, inr, ap, subst, ◌∙◌, none, some, true,
  false, ltb, ◌==◌, Bool-cases, arith,
}
use cs.Malloc.{
  MemBlock, Meta, tot_size, page_size, page_area_start, set_page, set_pages, set_all_pages,
  initialise, max_places,
}

abbrev pub num_pages : ℕ
num_pages = 2029

-- Where page `i` starts.
abbrev pub start_of : ℕ → ℕ
start_of i = page_area_start + i * page_size

-- The pages lie one behind the other, and a page that is free is in no allocation. Behind them is a place
-- without a page.
pub record IsReady (m : Meta) : Type 0 where
  pub numbered : (m 0).page_num ≢ 0
  pub starts : (i : ℕ) → i < num_pages → (m i).alloc_start ≡ some (start_of i)
  pub linked : (i : ℕ) → i < num_pages → (m i).next ≡ some (i + 1)
  pub last : (m num_pages).next ≡ none
  pub no_page : (m num_pages).alloc_start ≡ none
  pub unlinked : (i : ℕ) → i < num_pages → (m i).is_free ≡ true → (m i).next_page ≡ none

-- The place has the metadata of page `i` before any allocation.
abbrev IsFresh : ℕ → MemBlock → Type 0
IsFresh i b =
    (b.page_num ≡ i + 1)
    × (b.is_free ≡ true)
    × (b.alloc_start ≡ some (start_of i))
    × (b.next ≡ some (i + 1))
    × (b.next_page ≡ none)

set_page-other : (i s j : ℕ) (m : Meta) → i ≢ j → i + 1 ≢ j → set_page i s m j ≡ m j
unfolding set_page
set_page-other i s j m h k = ground arith

set_page-IsFresh : (i : ℕ) (m : Meta) → IsFresh i (set_page i (start_of i) m i)
unfolding set_page
set_page-IsFresh i m =
    let other : (i + 1 == i) ≡ false = ground arith in
    let same : (i == i) ≡ true = ground arith in rw (other, same) (refl, refl, refl, refl, refl)

set_page-behind : (i s : ℕ) (m : Meta) → set_page i s m (i + 1) ≡ record (m (i + 1)) { next = none }
unfolding set_page
set_page-behind i s m =
    let other : (i == i + 1) ≡ false = ground arith in
    let same : (i + 1 == i + 1) ≡ true = ground arith in rw (same, other) refl

-- A place before those that are set keeps what it holds.
set_pages-before : (fuel i s j : ℕ) (m : Meta) → j < i → set_pages fuel i s m j ≡ m j
unfolding set_pages
set_pages-before zero i s j m h = refl
set_pages-before (suc fuel) i s j m h = elim (Bool-cases (ltb s (tot_size - page_size))) [
  | inl e ↦
      rw (set_pages, e)
        (set_pages-before fuel (i + 1) (s + page_size) j (set_page i s m) (omega arith)
          ∙ set_page-other i s j m (λ p. omega (arith, p)) (λ p. omega (arith, p)))
  | inr e ↦ rw (set_pages, e) refl
]

-- One round of the loop for a page that there is room for.
set_pages-step :
    (fuel i : ℕ) (m : Meta)
    → i < num_pages
    → set_pages (suc fuel) i (start_of i) m
      ≡ set_pages fuel (i + 1) (start_of (i + 1)) (set_page i (start_of i) m)
unfolding set_pages
set_pages-step fuel i m h =
    let room : ltb (start_of i) (tot_size - page_size) ≡ true = ground arith in
    rw (set_pages, room)
      (ap (λ s. set_pages fuel (i + 1) s (set_page i (start_of i) m)) (omega arith))

set_pages-stop : (fuel : ℕ) (m : Meta) → set_pages fuel num_pages (start_of num_pages) m ≡ m
unfolding set_pages
set_pages-stop zero m = refl
set_pages-stop (suc fuel) m = refl

set_pages-IsFresh :
    (fuel i j : ℕ) (m : Meta)
    → i ≤ j
    → j < num_pages
    → j < i + fuel
    → IsFresh j (set_pages fuel i (start_of i) m j)
set_pages-IsFresh zero i j m h k l = absurd (omega arith)
set_pages-IsFresh (suc fuel) i j m h k l = elim (Bool-cases (i == j)) [
  | inl e ↦
      let same : i ≡ j = ground arith in
      rw (set_pages-step fuel i m (omega arith)) (
        subst
          (λ x. IsFresh x (set_pages fuel (i + 1) (start_of (i + 1)) (set_page i (start_of i) m) x))
          same
          (rw
            (set_pages-before fuel (i + 1) (start_of (i + 1)) i (set_page i (start_of i) m)
              (omega arith))
            (set_page-IsFresh i m)))
  | inr e ↦
      let other : i ≢ j = ground arith in
      rw (set_pages-step fuel i m (omega arith)) (
        set_pages-IsFresh fuel (i + 1) j (set_page i (start_of i) m) (omega (arith, other)) k
          (omega arith))
]

-- The place ends the list, and has the page that `b` has.
abbrev IsLast : MemBlock → MemBlock → Type 0
IsLast b last = (last.next ≡ none) × (last.alloc_start ≡ b.alloc_start)

set_pages-IsLast_end :
    (fuel : ℕ) (m : Meta)
    → IsLast (m num_pages) (set_pages (suc fuel) 2028 (start_of 2028) m num_pages)
set_pages-IsLast_end fuel m =
    rw
      (
        set_pages-step fuel 2028 m (omega arith),
        set_pages-stop fuel (set_page 2028 (start_of 2028) m),
        set_page-behind 2028 (start_of 2028) m,
      )
      (refl, refl)

-- The place behind the pages ends the list.
set_pages-IsLast :
    (fuel i : ℕ) (m : Meta)
    → i < num_pages
    → num_pages ≤ i + fuel
    → IsLast (m num_pages) (set_pages fuel i (start_of i) m num_pages)
set_pages-IsLast zero i m h l = absurd (omega arith)
set_pages-IsLast (suc fuel) i m h l = elim (Bool-cases (i == 2028)) [
  | inl e ↦
      let same : 2028 ≡ i = ground arith in
      subst (λ k. IsLast (m num_pages) (set_pages (suc fuel) k (start_of k) m num_pages)) same
        (set_pages-IsLast_end fuel m)
  | inr e ↦
      let other : i ≢ 2028 = ground arith in
      let kept : set_page i (start_of i) m num_pages ≡ m num_pages =
        set_page-other i (start_of i) num_pages m (λ p. omega (arith, p))
          (λ p. omega (arith, p, other)) in
      let (n, a) =
        set_pages-IsLast fuel (i + 1) (set_page i (start_of i) m) (omega (arith, other))
          (omega arith) in
      rw (set_pages-step fuel i m h) (n, a ∙ ap (λ b. b.alloc_start) kept)
]

set_all_pages-IsReady : (m : Meta) → (m num_pages).alloc_start ≡ none → IsReady (set_all_pages m)
unfolding set_all_pages
set_all_pages-IsReady m tail = record {
  numbered = λ e. omega (arith, e, (fresh 0 (omega arith)).0);
  starts = λ i k. (fresh i k).2;
  linked = λ i k. (fresh i k).3;
  last = last.0;
  no_page = last.1 ∙ tail;
  unlinked = λ i k f. (fresh i k).4;
}
  where
    fresh : (j : ℕ) → j < num_pages → IsFresh j (set_pages max_places 0 page_area_start m j)
    fresh j k = set_pages-IsFresh max_places 0 j m (omega arith) k (omega arith)

    last : IsLast (m num_pages) (set_pages max_places 0 page_area_start m num_pages)
    last = set_pages-IsLast max_places 0 m (omega arith) (omega arith)

-- In memory where no page has been set up, the first call of mymalloc sets up all pages that there is
-- room for.
pub initialise-IsReady :
    (m : Meta) → (m 0).page_num ≡ 0 → (m num_pages).alloc_start ≡ none → IsReady (initialise m)
unfolding initialise
initialise-IsReady m h tail =
    let first : ((m 0).page_num == 0) ≡ true = ground arith in
    rw (first) (set_all_pages-IsReady m tail)
