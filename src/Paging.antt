-- ===== src/Paging.antt =====
-- The paging allocator of asst2/my_pthread.c. A page's metadata is known by its place in page_data,
-- and a frame of memory by its number, so that `memory + n*PAGE_SIZE` is frame `n`; an address is its
-- distance from `memory`. `none` is a fault: a null pointer, or a variable or array entry that nobody
-- has set. A walk along links that form a circle never ends in the source; here it runs out of fuel,
-- which is the number of pages, and gives `none` too.
pub mod Swap
pub mod Places
pub mod Supply
pub mod Free
pub mod Protect
pub mod Tests
use cs.Base.{
  ℕ, zero, suc, ◌+◌, ◌-◌, ◌*◌, ◌/◌, ◌%◌, ◌^◌, List, [], ◌∷◌, ℤ, pos, negsuc, minus_one, Option,
  none, some, Bool, true, false, ltb, ◌==◌, if◌then◌else◌, length, get_elem?, update,
}

abbrev pub page_size : ℕ
page_size = 4096

abbrev pub num_pages : ℕ
num_pages = 256

-- `page_meta_t`
pub record Page : Type 0 where
  pub page : ℕ
  pub next : Option ℕ
  pub prev : Option ℕ
  pub free : Bool
  pub more : Bool
  pub tid : ℤ

-- The frames' contents and whether they can be accessed, the metadata, and of the running thread its
-- id, its list of pages and their number, and whether the first call has been made.
pub record Paging : Type 0 where
  pub frames : ℕ → List ℕ
  pub is_open : ℕ → Bool
  pub page_data : List Page
  pub id : ℤ
  pub page_list : Option ℕ
  pub owned : ℕ
  pub page_init : Bool

pub data Answer : Type 0 where
  address : ℕ → Answer
  enomem einval done : Answer

infixl 5 ◌>>=◌
abbrev pub ◌>>=◌ : {A B : Type 0} → Option A → (A → Option B) → Option B
none >>= f = none
some a >>= f = f a

-- `page_data[i] = f(page_data[i])`
pub modify : List Page → ℕ → (Page → Page) → List Page
modify [] i f = []
modify (p ∷ ps) zero f = f p ∷ ps
modify (p ∷ ps) (suc i) f = p ∷ modify ps i f

-- The metadata of frames `i` and the `n - 1` after it, at the start.
pub fresh_pages : ℕ → ℕ → List Page
fresh_pages zero i = []
fresh_pages (suc n) i =
    record { page = i; next = none; prev = none; free = true; more = false; tid = minus_one }
    ∷ fresh_pages n (i + 1)

pub page_malloc_init : Paging → Paging
unfolding fresh_pages
page_malloc_init s = record s { page_data = fresh_pages num_pages 0 }

-- The first place from `i` on whose metadata names frame `f`.
pub find_frame : ℕ → List Page → ℕ → Option ℕ
find_frame f [] i = none
find_frame f (p ∷ ps) i = let rest = find_frame f ps (i + 1) in if p.page == f then some i else rest

-- `n` steps along `next` from page `i`.
pub follow : ℕ → List Page → ℕ → Option ℕ
follow zero pages i = some i
follow (suc n) pages i = do p ← get_elem? pages i; j ← p.next; follow n pages j

pub set_frame : ℕ → Page → Page
set_frame f p = record p { page = f }

-- Swaps the contents of two frames and, meaning to, their metadata: `page_data[swapin].page` is set to
-- `right_page`, and `page_data[swapout].page` to `wrong_page`.
pub swap_pages : ℕ → ℕ → Paging → Option Paging
unfolding find_frame modify set_frame
swap_pages wrong_page right_page s = do
  swapout ← find_frame wrong_page s.page_data 0
  swapin ← find_frame right_page s.page_data 0
  some (record s {
    frames =
        update (update s.frames wrong_page (s.frames right_page)) right_page (s.frames wrong_page);
    is_open = update (update s.is_open wrong_page true) right_page false;
    page_data =
        modify (modify s.page_data swapin (set_frame right_page)) swapout (set_frame wrong_page);
  })

-- The handler of a page fault at an address in the simulated memory.
pub vmem_sig_handler : ℕ → Paging → Option Paging
unfolding follow swap_pages
vmem_sig_handler addr s = do
  first ← s.page_list
  wanted ← follow (addr / page_size) s.page_data first
  p ← get_elem? s.page_data wanted
  swap_pages (addr / page_size) p.page s

-- At least one page for a request of at least one byte, as the bits of an int.
pub pages_for : ℕ → ℕ
pages_for size = (if size % page_size == 0 then size / page_size else size / page_size + 1) % 2 ^ 32

-- The places of the first `n` free pages, counted from `i`, or of all if there are fewer.
pub find_free : List Page → ℕ → ℕ → List ℕ
find_free [] i n = []
find_free (p ∷ ps) i zero = []
find_free (p ∷ ps) i (suc n) =
    let taken = i ∷ find_free ps (i + 1) n in
    let rest = find_free ps (i + 1) (suc n) in if p.free then taken else rest

abbrev pub head : List ℕ → Option ℕ
head [] = none
head (i ∷ is) = some i

abbrev pub is_cons : List ℕ → Bool
is_cons [] = false
is_cons (i ∷ is) = true

-- The entry for a page of an allocation, with the places before and after it.
pub take_page : ℤ → Option ℕ → List ℕ → Page → Page
take_page id before after p = record p {
  free = false;
  tid = id;
  more = is_cons after;
  next = head after;
  prev = before;
}

pub link : ℤ → Option ℕ → List ℕ → List Page → List Page
unfolding take_page
link id before [] pages = pages
link id before (i ∷ is) pages = link id (some i) is (modify pages i (take_page id before is))

-- The last page of the list that page `i` is on.
pub last_page : ℕ → List Page → ℕ → Option ℕ
last_page zero pages i = none
last_page (suc fuel) pages i =
    get_elem? pages i >>= λ p. elim (p.next) [ none ↦ some i | some j ↦ last_page fuel pages j ]

pub set_next : Option ℕ → Page → Page
set_next j p = record p { next = j }

pub set_prev : Option ℕ → Page → Page
set_prev j p = record p { prev = j }

-- Appends the pages from `first` on to the thread's list: its first page, and the metadata.
pub append_pages : Option ℕ → ℕ → List Page → Option (Option ℕ × List Page)
unfolding last_page set_next set_prev
append_pages none first pages = some (some first, pages)
append_pages (some ptr) first pages = last_page num_pages pages ptr >>= λ l.
    some (some ptr, modify (modify pages l (set_next (some first))) first (set_prev (some l)))

-- The part that takes the pages found. A request of 0 bytes finds the array empty and faults.
pub allocate : List ℕ → Paging → Option (Answer × Paging)
unfolding link append_pages
allocate [] s = none
allocate (i ∷ is) s = append_pages s.page_list i (link s.id none (i ∷ is) s.page_data) >>= λ r.
    some (
      address (s.owned * page_size + 1),
      record s { page_list = r.0; page_data = r.1; owned = s.owned + length (i ∷ is) },
    )

-- The part of page_malloc behind the initialisation. The number of pages is an int: from 2^31 on, the
-- array has a negative length.
pub malloc_pages : ℕ → Paging → Option (Answer × Paging)
unfolding pages_for find_free allocate
malloc_pages size s =
    let needed = pages_for size in
    let got = find_free s.page_data 0 needed in
    if ltb needed (2 ^ 31)
    then (if length got == needed then allocate got s else some (enomem, s))
    else none

-- The first call initialises the metadata.
pub ready : Paging → Paging
unfolding page_malloc_init
ready s = if s.page_init then s else record (page_malloc_init s) { page_init = true }

pub page_malloc : ℕ → Paging → Option (Answer × Paging)
unfolding malloc_pages ready
page_malloc size s = malloc_pages size (ready s)

-- The first page of the list from `ptr` on whose frame starts at the address.
pub find_page : ℕ → List Page → Option ℕ → ℕ → Option (Option ℕ)
find_page fuel pages none addr = some none
find_page zero pages (some i) addr = none
find_page (suc fuel) pages (some i) addr = get_elem? pages i >>= λ p.
    let rest = find_page fuel pages p.next addr in
    if p.page * page_size == addr then some (some i) else rest

-- The last page of the allocation that page `i` is of.
pub last_more : ℕ → List Page → ℕ → Option ℕ
last_more zero pages i = none
last_more (suc fuel) pages i =
    get_elem? pages i >>= λ p. if p.more then (p.next >>= λ j. last_more fuel pages j) else some i

pub set_free : Page → Page
set_free p = record p { free = true }

-- Frees the pages from `ptr` up to `stop`: their number, and the metadata.
pub free_pages : ℕ → Option ℕ → Option ℕ → List Page → Option (ℕ × List Page)
unfolding set_free
free_pages fuel none stop pages = some (0, pages)
free_pages zero (some i) stop pages = none
free_pages (suc fuel) (some i) none pages = do
  p ← get_elem? pages i
  r ← free_pages fuel p.next none (modify pages i set_free)
  some (r.0 + 1, r.1)
free_pages (suc fuel) (some i) (some j) pages = if i == j then some (0, pages) else (do
  p ← get_elem? pages i
  r ← free_pages fuel p.next (some j) (modify pages i set_free)
  some (r.0 + 1, r.1))

-- The part of page_free for a page that was found. The pages that it frees are among those that the
-- thread's count stands for. A first or last page of the thread's list has no
-- neighbour to splice, which is a fault.
pub release : ℕ → Paging → Option (Answer × Paging)
unfolding last_more free_pages
release i s = do
  p ← get_elem? s.page_data i
  end ← last_more num_pages s.page_data i
  e ← get_elem? s.page_data end
  cut1 ← p.prev
  c ← get_elem? s.page_data cut1
  r ← free_pages num_pages c.next e.next s.page_data
  cut2 ← e.next
  some (
    done,
    record s {
      page_data = modify (modify r.1 cut1 (set_next (some cut2))) cut2 (set_prev (some cut1));
      owned = s.owned - r.0;
    },
  )

pub page_free : ℕ → Paging → Option (Answer × Paging)
unfolding find_page release
page_free addr s = find_page num_pages s.page_data s.page_list addr >>= λ found. elim found [
  | none ↦ some (einval, s)
  | some i ↦ release i s
]
