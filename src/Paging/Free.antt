-- ===== src/Paging/Free.antt =====
-- What page_free does with what page_malloc returns.
use cs.Base.{
  ℕ, zero, suc, ◌+◌, ◌*◌, ◌≤◌, ◌≡◌, refl, subst, sym, List, [], ◌∷◌, Option, none, some, false,
  ◌==◌, length, get_elem?, arith,
}
use cs.Paging.{
  Page, Paging, address, einval, page_size, num_pages, ready, page_malloc, find_page, page_free,
}
use cs.Paging.Supply.{Supplied-pages_for}

-- The list from `ptr` on has the pages named, and ends.
abbrev pub Chain : List Page → Option ℕ → List ℕ → Type 0
Chain pages ptr [] = ptr ≡ none
Chain pages ptr (e ∷ es) =
    (ptr ≡ some e) × (p : Page) × (get_elem? pages e ≡ some p) × Chain pages p.next es

apart : (m n : ℕ) → (m * page_size == n * page_size + 1) ≡ false
apart m n = ground arith

find_page-misses :
    (fuel n : ℕ) (pages : List Page) (ptr : Option ℕ) (es : List ℕ)
    → length es ≤ fuel
    → Chain pages ptr es
    → find_page fuel pages ptr (n * page_size + 1) ≡ some none
unfolding find_page
find_page-misses fuel n pages ptr [] le c = rw (c) refl
find_page-misses zero n pages ptr (e ∷ es) le c = absurd (omega (arith, le))
find_page-misses (suc fuel) n pages ptr (e ∷ es) le c =
    rw (c.0, c.2, apart (c.1.page) n)
      (find_page-misses fuel n pages (c.1.next) es (omega (arith, le)) c.3)

-- An address that page_malloc has returned is never one that page_free finds: in any state where
-- the running thread's list of pages ends within NUM_PAGES pages, page_free of it gives EINVAL and
-- changes nothing.
pub page_free-page_malloc :
    (size a : ℕ) (s s' t : Paging) (es : List ℕ)
    → page_malloc size s ≡ some (address a, s')
    → Chain t.page_data t.page_list es
    → length es ≤ num_pages
    → page_free a t ≡ some (einval, t)
unfolding page_free
page_free-page_malloc size a s s' t es e c le =
    let at : a ≡ (ready s).owned * page_size + 1 =
      (Supplied-pages_for size s (address a, s') e).1 in
    let missed = find_page-misses num_pages (ready s).owned t.page_data t.page_list es le c in
    subst (λ b. page_free b t ≡ some (einval, t)) (sym at) (rw (missed) refl)
