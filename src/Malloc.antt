-- ===== src/Malloc.antt =====
-- The allocator of asst2/mymalloc.c. An address is its distance from `mem`, and the metadata of a page is
-- known by its place from `meta_ptr` on (an address below `mem`, which myfree turns away, has no number); from place 2097 on, what stands there is what the first page
-- holds. `none` is a fault: a null pointer. The loops run along at most 2098 places.
pub mod Split
pub mod Setup
pub mod First
pub mod RoundTrip
pub mod Library
pub mod Runs
pub mod Search
pub mod Large
pub mod Tests
use cs.Base.{
  ℕ, zero, suc, ◌+◌, ◌-◌, ◌*◌, ◌/◌, ◌%◌, ◌^◌, Option, none, some, Bool, true, false, not, ltb, leb,
  ◌==◌, ◌&&◌, ◌||◌, if◌then◌else◌, update,
}

abbrev pub tot_size : ℕ
tot_size = 8388608

abbrev pub page_size : ℕ
page_size = 4092

abbrev pub page_area_start : ℕ
page_area_start = tot_size / 100

abbrev pub lib_page_start : ℕ
lib_page_start = tot_size - tot_size / 4

-- `sizeof(mem_block)` with pointers of 8 bytes
abbrev pub block_bytes : ℕ
block_bytes = 40

abbrev pub max_places : ℕ
max_places = 2098

-- `mem_block`
pub record MemBlock : Type 0 where
  pub size : ℕ
  pub next : Option ℕ
  pub next_page : Option ℕ
  pub alloc_start : Option ℕ
  pub is_free : Bool
  pub page_num : ℕ
  pub tid : ℕ

abbrev pub Meta : Type 0
Meta = ℕ → MemBlock

-- `meta[i] = f(meta[i])`
abbrev pub modify : Meta → ℕ → (MemBlock → MemBlock) → Meta
modify m i f = update m i (f (m i))

-- The metadata of page `i`, which starts at `start`.
unfoldable pub set_page : ℕ → ℕ → Meta → Meta
set_page i start m =
    modify
      (modify m i (λ b. record b {
        is_free = true;
        page_num = i + 1;
        tid = 0;
        alloc_start = some start;
        next_page = none;
        next = some (i + 1);
      }))
      (i + 1) (λ b. record b { next = none })

-- The loop over the pages from page `i` on, which starts at `mem_index`.
unfoldable pub set_pages : ℕ → ℕ → ℕ → Meta → Meta
unfolding set_page
set_pages zero i mem_index m = m
set_pages (suc fuel) i mem_index m =
    let rest = set_pages fuel (i + 1) (mem_index + page_size) (set_page i mem_index m) in
    if ltb mem_index (tot_size - page_size) then rest else m

unfoldable pub set_all_pages : Meta → Meta
set_all_pages m = set_pages max_places 0 page_area_start m

-- The first call sets up the metadata.
unfoldable pub initialise : Meta → Meta
initialise m = if (m 0).page_num == 0 then set_all_pages m else m

abbrev pub is_some : {A : Type 0} → Option A → Bool
is_some none = false
is_some (some a) = true

-- The search for a free page, from place `i` on.
unfoldable pub find_block : ℕ → ℕ → Meta → Option ℕ
find_block zero i m = none
find_block (suc fuel) i m =
    let rest = find_block fuel (i + 1) m in
    if not (m i).is_free && is_some (m i).next && ltb (i * block_bytes) lib_page_start
    then rest
    else some i

-- `alloc_start + size > meta_ptr->alloc_start + 7920000`, where a null pointer is below everything.
unfoldable pub exceeds : Option ℕ → ℕ → ℕ → Bool
exceeds none size first = false
exceeds (some a) size first = ltb (first + 7920000) (a + size)

unfoldable pub pages_needed : ℕ → ℕ
pages_needed size = if size % page_size == 0 then size / page_size else size / page_size + 1

-- How many free pages in a row there are with page `i`, and the first of them.
unfoldable pub count_page : Bool → ℕ → ℕ → Option ℕ → ℕ × Option ℕ
count_page true i zero saved = (1, some i)
count_page true i (suc found) saved = (suc found + 1, saved)
count_page false i found saved = (0, saved)

-- The search for pages in a row, from place `i` on: how many were found, and the first of them.
unfoldable pub find_run : ℕ → ℕ → ℕ → ℕ → Option ℕ → Meta → Option (ℕ × Option ℕ)
unfolding count_page
find_run zero needed i found saved m = none
find_run (suc fuel) needed i found saved m =
    let (found', saved') = count_page (m i).is_free i found saved in
    let rest = find_run fuel needed (i + 1) found' saved' m in
    if not (is_some (m i).next) || needed == found then some (found, saved) else rest

-- Links and takes `n` pages from place `i` on.
unfoldable pub link_pages : ℕ → ℕ → Meta → Meta
link_pages zero i m = m
link_pages (suc n) i m =
    link_pages n (i + 1) (modify m i (λ b. record b { next_page = b.next; is_free = false }))

-- The part for more than a page. One page more than needed is taken, also where there are too few.
unfoldable pub malloc_run : ℕ → ℕ → Meta → Option (Option ℕ × Meta)
malloc_run size i m = elim (find_run max_places (pages_needed size) i 0 none m) [
  | none ↦ none
  | some (found, none) ↦ none
  | some (found, some k) ↦ some (
    if pages_needed size == found then (m k).alloc_start else none,
    link_pages (pages_needed size + 1) k m,
  )
]

unfoldable pub take_page : ℕ → Meta → Option (Option ℕ × Meta)
take_page i m = some ((m i).alloc_start, modify m i (λ b. record b { is_free = false }))

-- The part for the place that was found. In an empty memory there is no first page.
unfoldable pub malloc_at : ℕ → ℕ → Meta → Option (Option ℕ × Meta)
malloc_at size i m = elim ((m 0).alloc_start) [
  | none ↦ none
  | some first ↦
      if exceeds (m i).alloc_start size first
      then some (none, m)
      else if leb size page_size
      then take_page i m
      else malloc_run size i m
]

-- Only a request with number 0, of a thread, is given a page that is free.
unfoldable pub find_place : ℕ → Meta → Option ℕ
find_place request m = if request == 0 then find_block max_places 0 m else some 0

unfoldable pub malloc_ready : ℕ → ℕ → Meta → Option (Option ℕ × Meta)
malloc_ready size request m =
    if ltb (tot_size / 100) size
    then some (none, m)
    else elim (find_place request m) [ none ↦ none | some i ↦ malloc_at size i m ]

unfoldable pub mymalloc : ℕ → ℕ → Meta → Option (Option ℕ × Meta)
mymalloc size request m = malloc_ready size request (initialise m)

-- `curr_block->alloc_start != index`
abbrev pub starts_at : Option ℕ → ℕ → Bool
starts_at none a = false
starts_at (some b) a = b == a

-- `meta_ptr->alloc_start`, which is null before the first allocation.
abbrev pub limit : Meta → ℕ
limit m = elim ((m 0).alloc_start) [ none ↦ 0 | some a ↦ a ]

-- The search of myfree from place `i` on.
unfoldable pub find_start : ℕ → ℕ → ℕ → Meta → ℕ
find_start zero a i m = i
find_start (suc fuel) a i m =
    let rest = find_start fuel a (i + 1) m in
    if not (starts_at (m i).alloc_start a) && ltb (i * block_bytes) (limit m) then rest else i

-- The loop that clears the links of the pages from place `i` on.
unfoldable pub clear_pages : ℕ → ℕ → Meta → Meta
clear_pages zero i m = m
clear_pages (suc fuel) i m =
    let rest = clear_pages fuel (i + 1) (modify m i (λ b. record b { next_page = none })) in
    if is_some (m i).next_page then rest else m

-- Only the first page of an allocation becomes free.
unfoldable pub free_at : ℕ → ℕ → Meta → Meta
free_at a i m =
    if starts_at (m i).alloc_start a
    then clear_pages max_places i (modify m i (λ b. record b { is_free = true }))
    else m

unfoldable pub myfree : ℕ → Meta → Meta
myfree a m = if ltb a tot_size then free_at a (find_start max_places a 0 m) m else m
