-- ===== src/Malloc/RoundTrip.antt =====
-- A page that a thread gets from mymalloc and gives back to myfree.
use cs.Base.{
  ℕ, zero, suc, ◌+◌, ◌*◌, ◌/◌, ◌≤◌, ◌<◌, ◌≡◌, refl, ◌≢◌, ◌⊎◌, inl, inr, ap, subst, ◌∙◌, Option,
  none, some, true, false, ltb, leb, ◌==◌, if◌then◌else◌, Bool-cases, arith,
}
use cs.Malloc.{
  Meta, modify, tot_size, page_size, page_area_start, block_bytes, max_places, find_block,
  find_place, exceeds, take_page, malloc_at, malloc_ready, mymalloc, starts_at, limit, find_start,
  clear_pages, free_at, myfree,
}
use cs.Malloc.Setup.{IsReady, num_pages, start_of}
use cs.Malloc.First.{initialise-ready, IsFirst, find_block-IsFirst}

-- The memory in which page `k` is taken.
abbrev taken : Meta → ℕ → Meta
taken m k = modify m k (λ b. record b { is_free = false })

clear_pages-none : (fuel i : ℕ) (m : Meta) → (m i).next_page ≡ none → clear_pages fuel i m ≡ m
unfolding clear_pages
clear_pages-none zero i m h = refl
clear_pages-none (suc fuel) i m h = ground arith

-- Where the pages start.
abbrev HasStarts : Meta → Type 0
HasStarts m = (i : ℕ) → i < num_pages → (m i).alloc_start ≡ some (start_of i)

taken-HasStarts : (m : Meta) (k : ℕ) → IsReady m → HasStarts (taken m k)
taken-HasStarts m k v i h = go (Bool-cases (k == i))
  where
    go : ((k == i) ≡ true) ⊎ ((k == i) ≡ false) → (taken m k i).alloc_start ≡ some (start_of i)
    go (inl e) = rw (e) (
        let same : k ≡ i = ground arith in
        v.starts k (omega (arith, same)) ∙ ap (λ j. some (start_of j)) same)
    go (inr e) = rw (e) (v.starts i h)

find_start-finds :
    (fuel i k : ℕ) (m : Meta)
    → HasStarts m
    → i ≤ k
    → k < num_pages
    → k < i + fuel
    → find_start fuel (start_of k) i m ≡ k
unfolding find_start
find_start-finds zero i k m v h l f = absurd (omega arith)
find_start-finds (suc fuel) i k m v h l f =
    let here : (m i).alloc_start ≡ some (start_of i) = v i (omega arith) in
    let bound : limit m ≡ page_area_start =
      ap (λ s. elim s [ none ↦ 0 | some a ↦ a ]) (v 0 (omega arith)) in
    let inside : ltb (i * block_bytes) (limit m) ≡ true = rw (bound) (ground arith) in
    elim (Bool-cases (i == k)) [
      | inl p ↦
          (let same : i ≡ k = ground arith in
            let found : (start_of i == start_of k) ≡ true = ground arith in
            rw (find_start, here, found) same)
      | inr p ↦
          (let other : i ≢ k = ground arith in
            let no_match : (start_of i == start_of k) ≡ false = ground arith in
            rw (find_start, here, no_match, inside)
              (find_start-finds fuel (i + 1) k m v (omega (arith, other)) l (omega arith)))
    ]

-- The result and the metadata of a request that finds no page.
abbrev pub Refused : Option (Option ℕ × Meta) → Type 0
Refused r = (m' : Meta) × (r ≡ some (none, m'))

-- Page `k` is free and is given and taken, and myfree of its address gives back the metadata as they were.
abbrev pub Lends : Meta → Option (Option ℕ × Meta) → ℕ → Type 0
Lends m r k =
    (k < num_pages)
    × ((m k).is_free ≡ true)
    × (m' : Meta) × (r ≡ some (some (start_of k), m'))
    × ((m' k).is_free ≡ false)
    × ((j : ℕ) → myfree (start_of k) m' j ≡ m j)

-- The memory in which page `k` is free again.
abbrev released : Meta → ℕ → Meta
released m k = modify m k (λ b. record b { is_free = true })

released-taken : (m : Meta) (k j : ℕ) → (m k).is_free ≡ true → released (taken m k) k j ≡ m j
released-taken m k j free = go (Bool-cases (k == j))
  where
    go : ((k == j) ≡ true) ⊎ ((k == j) ≡ false) → released (taken m k) k j ≡ m j
    go (inl e) =
        let same : k ≡ j = ground arith in
        let own : (k == k) ≡ true = ground arith in rw (e, own, ← free) (ap m same)
    go (inr e) = rw (e) refl

released_unlinked : (m : Meta) (k : ℕ) → (m k).next_page ≡ none → (released m k k).next_page ≡ none
released_unlinked m k h = let own : (k == k) ≡ true = ground arith in rw (own) h

taken_unlinked : (m : Meta) (k : ℕ) → (m k).next_page ≡ none → (taken m k k).next_page ≡ none
taken_unlinked m k h = let own : (k == k) ≡ true = ground arith in rw (own) h

free_at-found :
    (m : Meta) (k a : ℕ)
    → (m k).alloc_start ≡ some a
    → (m k).next_page ≡ none
    → free_at a k m ≡ released m k
unfolding free_at
free_at-found m k a h n =
    let own : (a == a) ≡ true = ground arith in
    let here : starts_at (m k).alloc_start a ≡ true = ap (λ s. starts_at s a) h ∙ own in
    ap (λ b. if b then clear_pages max_places k (released m k) else m) here
    ∙ (clear_pages-none max_places k (released m k) (released_unlinked m k n))

myfree-found :
    (m : Meta) (k : ℕ)
    → HasStarts m
    → k < num_pages
    → (m k).next_page ≡ none
    → myfree (start_of k) m ≡ released m k
unfolding myfree
myfree-found m k v h n =
    let in_mem : ltb (start_of k) tot_size ≡ true = ground arith in
    rw (in_mem, find_start-finds max_places 0 k m v (omega arith) h (omega arith))
      (free_at-found m k (start_of k) (v k h) n)

myfree-taken :
    (m : Meta) (k : ℕ)
    → IsReady m
    → k < num_pages
    → (m k).is_free ≡ true
    → (j : ℕ) → myfree (start_of k) (taken m k) j ≡ m j
myfree-taken m k v h free j =
    ap (λ n. n j)
      (myfree-found (taken m k) k (taken-HasStarts m k v) h
        (taken_unlinked m k (v.unlinked k h free)))
    ∙ released-taken m k j free

pub malloc_at-page :
    (m : Meta) (size k : ℕ)
    → (m 0).alloc_start ≡ some page_area_start
    → size ≤ page_size
    → malloc_at size k m
      ≡ (if exceeds (m k).alloc_start size page_area_start then some (none, m) else take_page k m)
unfolding malloc_at
malloc_at-page m size k first h =
    let fits : leb size page_size ≡ true = ground arith in rw (malloc_at, first, fits) refl

-- Every free page is near the end.
abbrev pub NearEnd : Meta → ℕ → Type 0
NearEnd m size =
    (j : ℕ) → j < num_pages → (m j).is_free ≡ true → page_area_start + 7920000 < start_of j + size

malloc_at-behind :
    (m : Meta) (size : ℕ) → IsReady m → size ≤ page_size → Refused (malloc_at size num_pages m)
unfolding exceeds take_page
malloc_at-behind m size v h = (
  taken m num_pages,
  malloc_at-page m size num_pages (v.starts 0 (omega arith)) h ∙ rw (v.no_page) refl,
)

malloc_at-small :
    (m : Meta) (size k : ℕ)
    → IsReady m
    → size ≤ page_size
    → IsFirst m 0 k
    → (Refused (malloc_at size k m) × NearEnd m size) ⊎ Lends m (malloc_at size k m) k
unfolding take_page exceeds
malloc_at-small m size k v h first = elim (Bool-cases (k == num_pages)) [
  | inl e ↦
      let same : num_pages ≡ k = ground arith in
      inl (
        subst (λ n. Refused (malloc_at size n m)) same (malloc_at-behind m size v h),
        λ j l free. absurd (ground (arith, first.3 j)),
      )
  | inr e ↦
      let inside : k < num_pages = ground (arith, first.1) in
      elim (Bool-cases (ltb (page_area_start + 7920000) (start_of k + size))) [
        | inl far ↦ inl (
          (
            m,
            malloc_at-page m size k (v.starts 0 (omega arith)) h ∙ rw (v.starts k inside, far) refl,
          ),
          λ j l free. ground (arith, first.3 j),
        )
        | inr near ↦ inr (
          inside,
          first.2 inside,
          taken m k,
          malloc_at-page m size k (v.starts 0 (omega arith)) h ∙ rw (v.starts k inside, near) refl,
          (let own : (k == k) ≡ true = ground arith in rw (own) refl),
          myfree-taken m k v inside (first.2 inside),
        )
      ]
]

pub mymalloc-found :
    (m : Meta) (size k : ℕ)
    → IsReady m
    → size ≤ tot_size / 100
    → find_block max_places 0 m ≡ some k
    → mymalloc size 0 m ≡ malloc_at size k m
unfolding mymalloc malloc_ready find_place
mymalloc-found m size k v h e =
    let small : ltb (tot_size / 100) size ≡ false = ground arith in
    ap (malloc_ready size 0) (initialise-ready m v.numbered) ∙ rw (small, e) refl

-- Once the pages are set up, a request of a thread for at most a page gives a free page, which is taken
-- then and whose release by myfree gives back the metadata as they were; or NULL, only where every free
-- page is so near the end that the request would pass byte 7920000 behind the start of the first page.
pub mymalloc-myfree :
    (m : Meta) (size : ℕ)
    → IsReady m
    → size ≤ page_size
    → (Refused (mymalloc size 0 m) × NearEnd m size) ⊎ ((k : ℕ) × Lends m (mymalloc size 0 m) k)
mymalloc-myfree m size v h =
    let (k, e, first) = find_block-IsFirst max_places 0 m v (omega arith) (omega arith) in
    rw (mymalloc-found m size k v (omega arith) e)
      (elim (malloc_at-small m size k v h first) [ inl r ↦ inl r | inr l ↦ inr (k, l) ])
