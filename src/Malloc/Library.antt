-- ===== src/Malloc/Library.antt =====
-- What mymalloc gives the thread library, whose requests have a number other than 0.
use cs.Base.{ℕ, suc, ◌+◌, ◌/◌, ◌≤◌, ◌≡◌, refl, ◌≢◌, ap, ◌∙◌, some, false, ltb, ◌==◌, arith}
use cs.Malloc.{
  Meta, modify, tot_size, page_size, page_area_start, find_place, exceeds, take_page, malloc_at,
  malloc_ready, mymalloc,
}
use cs.Malloc.RoundTrip.{malloc_at-page}
use cs.Malloc.First.{initialise-ready}

-- The first page has been set up.
abbrev pub HasFirst : Meta → Type 0
HasFirst m = ((m 0).page_num ≢ 0) × ((m 0).alloc_start ≡ some page_area_start)

abbrev taken : Meta → Meta
taken m = modify m 0 (λ b. record b { is_free = false })

malloc_at-first :
    (m : Meta) (size : ℕ)
    → (m 0).alloc_start ≡ some page_area_start
    → size ≤ page_size
    → malloc_at size 0 m ≡ some (some page_area_start, taken m)
unfolding take_page exceeds
malloc_at-first m size h l =
    let near : ltb (page_area_start + 7920000) (page_area_start + size) ≡ false = ground arith in
    malloc_at-page m size 0 h l ∙ rw (h, near) refl

mymalloc-first :
    (m : Meta) (size request : ℕ)
    → HasFirst m
    → size ≤ page_size
    → mymalloc size (suc request) m ≡ some (some page_area_start, taken m)
unfolding mymalloc malloc_ready find_place
mymalloc-first m size request h l =
    let small : ltb (tot_size / 100) size ≡ false = ground arith in
    let other : (suc request == 0) ≡ false = ground arith in
    ap (malloc_ready size (suc request)) (initialise-ready m h.0)
    ∙ rw (small, other) (malloc_at-first m size h.1 l)

-- Once the first page is set up, any two requests of the library for at most a page get the same page,
-- though the first one has not been given back.
pub mymalloc_aliases :
    (m : Meta) (size size' request : ℕ)
    → HasFirst m
    → size ≤ page_size
    → size' ≤ page_size
    → (a : ℕ) × (m' : Meta) × (m'' : Meta) × (mymalloc size (suc request) m ≡ some (some a, m'))
      × (mymalloc size' (suc request) m' ≡ some (some a, m''))
mymalloc_aliases m size size' request h l l' = (
  page_area_start,
  taken m,
  taken (taken m),
  mymalloc-first m size request h l,
  mymalloc-first (taken m) size' request h l',
)
