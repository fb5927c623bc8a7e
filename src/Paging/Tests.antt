-- ===== src/Paging/Tests.antt =====
-- The properties of paging at a memory of three pages.
use cs.Base.{
  ℕ, ◌≡◌, refl, List, [], ◌∷◌, pos, minus_one, Option, none, some, Bool, true, false, arith,
}
use cs.Paging.{
  Page, Paging, Answer, address, einval, pages_for, ready, malloc_pages, page_malloc, page_free,
  find_free, allocate, link, take_page, append_pages, modify,
}
use cs.Base.{if◌then◌else◌, ◌==◌}
use cs.Paging.Supply.{Supplied, page_malloc-Supplied}
use cs.Paging.Free.{page_free-page_malloc}

abbrev page_at : ℕ → Bool → Page
page_at f free = record {
  page = f;
  next = none;
  prev = none;
  free = free;
  more = false;
  tid = minus_one;
}

abbrev paging : List Page → Option ℕ → Paging
paging pages list = record {
  frames = λ f. f ∷ [];
  is_open = λ f. true;
  page_data = pages;
  id = pos 1;
  page_list = list;
  owned = 0;
  page_init = true;
}

-- The first page of the thread is in frame 2.
abbrev moved : Paging
moved = paging (page_at 2 false ∷ page_at 1 true ∷ page_at 0 false ∷ []) (some 0)

abbrev fresh : Paging
fresh = paging (page_at 0 true ∷ page_at 1 true ∷ page_at 2 true ∷ []) none

-- The state after a request that is known to succeed.
abbrev after : Option (Answer × Paging) → Paging
after none = fresh
after (some (a, s)) = s

two_given : page_malloc 5000 fresh ≡ some (address 1, after (page_malloc 5000 fresh))
unfolding page_malloc malloc_pages ready pages_for find_free allocate link take_page append_pages
    modify
two_given = refl

page_malloc-Supplied_example : Supplied 2 (ready fresh) (address 1, after (page_malloc 5000 fresh))
page_malloc-Supplied_example =
    page_malloc-Supplied 5000 2 fresh (address 1, after (page_malloc 5000 fresh)) (omega arith)
      (omega arith) two_given

page_free-page_malloc_example : page_free 1 moved ≡ some (einval, moved)
page_free-page_malloc_example =
    page_free-page_malloc 5000 1 fresh (after (page_malloc 5000 fresh)) moved (0 ∷ []) two_given
      (refl, page_at 2 false, refl, refl) (omega arith)

-- Thread 1 has frame 0, and every other thread frame 1.
abbrev two_pages : List Page
two_pages = page_at 0 false ∷ page_at 1 false ∷ []

abbrev list_at : ℕ → Option ℕ
list_at t = if t == 1 then some 0 else some 1

abbrev frames_at : ℕ → List ℕ
frames_at t = if t == 1 then 0 ∷ [] else 1 ∷ []
