-- ===== src/Paging/Supply.antt =====
-- What page_malloc takes from the supply of free pages.
use cs.Base.{
  ℕ, zero, suc, ◌+◌, ◌-◌, ◌*◌, ◌%◌, ◌≤◌, ◌<◌, ◌≡◌, refl, ◌≢◌, ap, subst, ◌∙◌, List, [], ◌∷◌, ℤ,
  Option, none, some, Bool, true, false, ltb, ◌==◌, if◌then◌else◌, length, get_elem?, arith, ◌^◌,
}
use Prim.Native.Nat.{min}
use cs.Paging.{
  Page, Paging, Answer, address, enomem, einval, done, page_size, num_pages, modify, pages_for,
  find_free, take_page, link, last_page, append_pages, allocate, ready, malloc_pages, page_malloc,
  set_next, set_prev, ◌>>=◌,
}
use cs.Paging.Places.{
  free_one, free_count, IsFreeAt, AreAbove, AreFree, length-find_free, find_free-AreAbove,
  find_free-AreFree,
}

-- Changing a page that stays as free as it was.
free_count-modify_same :
    (ps : List Page) (k : ℕ) (g : Page → Page)
    → ((p : Page) → (g p).free ≡ p.free)
    → free_count (modify ps k g) ≡ free_count ps
unfolding modify
free_count-modify_same [] k g h = refl
free_count-modify_same (p ∷ ps) zero g h = rw (h p) refl
free_count-modify_same (p ∷ ps) (suc k) g h =
    ap (λ n. free_one p + n) (free_count-modify_same ps k g h)

-- Taking a free page.
free_count-modify_take :
    (ps : List Page) (k : ℕ) (g : Page → Page)
    → IsFreeAt ps k
    → ((p : Page) → (g p).free ≡ false)
    → free_count (modify ps k g) + 1 ≡ free_count ps
unfolding modify IsFreeAt
free_count-modify_take [] k g f h = absurd (ground arith)
free_count-modify_take (p ∷ ps) zero g f h =
    let same : p.free ≡ true = ground (arith, f.1, f.2) in rw (h p, same) (omega arith)
free_count-modify_take (p ∷ ps) (suc k) g f h = omega (arith, free_count-modify_take ps k g f h)

get_elem?-modify_ne :
    (ps : List Page) (k j : ℕ) (g : Page → Page)
    → k ≢ j
    → get_elem? (modify ps k g) j ≡ get_elem? ps j
unfolding modify
get_elem?-modify_ne [] k j g n = refl
get_elem?-modify_ne (p ∷ ps) zero zero g n = absurd (n refl)
get_elem?-modify_ne (p ∷ ps) zero (suc j) g n = refl
get_elem?-modify_ne (p ∷ ps) (suc k) zero g n = refl
get_elem?-modify_ne (p ∷ ps) (suc k) (suc j) g n = get_elem?-modify_ne ps k j g (λ e. n (ap suc e))

AreFree-modify :
    (ps : List Page) (k i : ℕ) (ks : List ℕ) (g : Page → Page)
    → k < i
    → AreAbove i ks
    → AreFree ps 0 ks
    → AreFree (modify ps k g) 0 ks
unfolding IsFreeAt
AreFree-modify ps k i [] g lt a f = tt
AreFree-modify ps k i (j ∷ ks) g lt a f = (
  omega arith,
  (f.1.0, get_elem?-modify_ne ps k (j - 0) g (omega (arith, a.0)) ∙ f.1.1, f.1.2),
  AreFree-modify ps k (j + 1) ks g (omega (arith, a.0)) a.1 f.2,
)

free_count-link :
    (id : ℤ) (before : Option ℕ) (i : ℕ) (ks : List ℕ) (ps : List Page)
    → AreAbove i ks
    → AreFree ps 0 ks
    → free_count (link id before ks ps) + length ks ≡ free_count ps
unfolding link take_page
free_count-link id before i [] ps a f = omega arith
free_count-link id before i (k ∷ ks) ps a f = omega (
  arith,
  free_count-modify_take ps k (take_page id before ks)
      (subst (IsFreeAt ps) {x = k - 0} {y = k} (omega arith) f.1) (λ p. refl),
  free_count-link id (some k) (k + 1) ks (modify ps k (take_page id before ks)) a.1
      (AreFree-modify ps k (k + 1) ks (take_page id before ks) (omega arith) a.1 f.2),
)

append_pages-free_count :
    (list l : Option ℕ) (first : ℕ) (ps ps' : List Page)
    → append_pages list first ps ≡ some (l, ps')
    → free_count ps' ≡ free_count ps
unfolding append_pages set_next set_prev
append_pages-free_count none l first ps ps' e = ground arith
append_pages-free_count (some ptr) l first ps ps' e = go (last_page num_pages ps ptr) e
  where
    go :
        (r : Option ℕ)
        → ◌>>=◌ {B = Option ℕ × List Page} r (λ k.
          some (some ptr, modify (modify ps k (set_next (some first))) first (set_prev (some k))))
          ≡ some (l, ps')
        → free_count ps' ≡ free_count ps
    go none q = absurd (ground arith)
    go (some k) q =
        let it : ps' ≡ modify (modify ps k (set_next (some first))) first (set_prev (some k)) =
          ground arith in
        ap free_count it
        ∙ free_count-modify_same (modify ps k (set_next (some first))) first (set_prev (some k))
            (λ p. refl)
        ∙ free_count-modify_same ps k (set_next (some first)) (λ p. refl)

-- What page_malloc leaves, for the number of pages that it needs: an answer with the address, or
-- ENOMEM.
abbrev pub Supplied : ℕ → Paging → Answer × Paging → Type 0
Supplied needed s (address a, s') =
    (needed ≤ free_count s.page_data)
    × (a ≡ s.owned * page_size + 1)
    × (s'.owned ≡ s.owned + needed)
    × (free_count s'.page_data + needed ≡ free_count s.page_data)
Supplied needed s (enomem, s') = (free_count s.page_data < needed) × (s' ≡ s)
Supplied needed s (einval, s') = ⊥
Supplied needed s (done, s') = ⊥

abbrev MaySupply : ℕ → Paging → Option (Answer × Paging) → Type 0
MaySupply n s none = Unit
MaySupply n s (some r) = Supplied n s r

allocate-MaySupply :
    (s : Paging) (n : ℕ) (ks : List ℕ)
    → AreAbove 0 ks
    → AreFree s.page_data 0 ks
    → length ks ≡ n
    → n ≤ free_count s.page_data
    → MaySupply n s (allocate ks s)
unfolding allocate
allocate-MaySupply s n [] a f l le = tt
allocate-MaySupply s n (i ∷ is) a f l le = go (append_pages s.page_list i linked) refl
  where
    linked : List Page
    linked = link s.id none (i ∷ is) s.page_data

    go :
        (t : Option (Option ℕ × List Page))
        → append_pages s.page_list i linked ≡ t
        → MaySupply n s (
            t >>= λ r. some (
              address (s.owned * page_size + 1),
              record s { page_list = r.0; page_data = r.1; owned = s.owned + length (i ∷ is) },
            ))
    go none e = tt
    go (some (first, ps')) e = (
      le,
      refl,
      ap (λ k. s.owned + k) l,
      omega (
        arith,
        append_pages-free_count s.page_list first i linked ps' e,
        l,
        free_count-link s.id none 0 (i ∷ is) s.page_data a f,
      ),
    )

choose :
    (n : ℕ) (s : Paging) (b c : Bool) (x y : Option (Answer × Paging))
    → (c ≡ true → MaySupply n s x)
    → (c ≡ false → MaySupply n s y)
    → MaySupply n s (if b then (if c then x else y) else none)
choose n s false c x y f g = tt
choose n s true true x y f g = f refl
choose n s true false x y f g = g refl

malloc_pages-MaySupply :
    (size : ℕ) (s : Paging) → MaySupply (pages_for size) s (malloc_pages size s)
unfolding malloc_pages
malloc_pages-MaySupply size s =
    let n = pages_for size in
    let got = find_free s.page_data 0 n in
    let found : length got ≡ min n (free_count s.page_data) = length-find_free s.page_data 0 n in
    choose n s (ltb n (2 ^ 31)) (length got == n) (allocate got s) (some (enomem, s))
      (λ e.
        allocate-MaySupply s n got (find_free-AreAbove s.page_data 0 n)
          (find_free-AreFree s.page_data 0 n) (ground arith) (ground (arith, found)))
      (λ e. (ground (arith, found), refl))

pages_for-ceiling :
    (size n : ℕ)
    → size ≤ n * page_size
    → n * page_size < size + page_size
    → pages_for size ≡ n % 2 ^ 32
unfolding pages_for
pages_for-ceiling size n h l = ap (λ k. k % 2 ^ 32) (ground arith)

pub Supplied-pages_for :
    (size : ℕ) (s : Paging) (r : Answer × Paging)
    → page_malloc size s ≡ some r
    → Supplied (pages_for size) (ready s) r
unfolding page_malloc
Supplied-pages_for size s r e =
    subst (MaySupply (pages_for size) (ready s)) e (malloc_pages-MaySupply size (ready s))

-- For the least number `n` of pages that hold a request, kept in an unsigned int: whatever page_malloc returns, compared with the state in which the metadata are initialised: an address, and then `n` pages have been taken
-- from the free ones, no more and no fewer, and are counted for the thread, and the address is one byte
-- behind the start of the thread's next page; or ENOMEM, and then fewer than `n` pages were free,
-- and nothing has changed.
pub page_malloc-Supplied :
    (size n : ℕ) (s : Paging) (r : Answer × Paging)
    → size ≤ n * page_size
    → n * page_size < size + page_size
    → page_malloc size s ≡ some r
    → Supplied (n % 2 ^ 32) (ready s) r
page_malloc-Supplied size n s r h l e =
    subst (λ k. Supplied k (ready s) r) (pages_for-ceiling size n h l)
      (Supplied-pages_for size s r e)
