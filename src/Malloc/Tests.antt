-- ===== src/Malloc/Tests.antt =====
-- The allocator in empty memory.
use cs.Base.{ℕ, suc, ◌≡◌, refl, ◌⊎◌, none, some, false, arith}
use cs.Malloc.{Meta, initialise, mymalloc}
use cs.Malloc.Setup.{IsReady, initialise-IsReady}
use cs.Malloc.RoundTrip.{Refused, NearEnd, Lends, mymalloc-myfree}
use cs.Malloc.Large.{Settles, mymalloc-Grants}
use cs.Malloc.Library.{mymalloc_aliases}

-- Static memory, which is zero.
abbrev empty : Meta
empty = λ i. record {
  size = 0;
  next = none;
  next_page = none;
  alloc_start = none;
  is_free = false;
  page_num = 0;
  tid = 0;
}

abbrev set_up : Meta
set_up = initialise empty

empty-IsReady : IsReady set_up
empty-IsReady = initialise-IsReady empty refl refl

mymalloc-myfree_example :
    (Refused (mymalloc 100 0 set_up) × NearEnd set_up 100)
    ⊎ ((k : ℕ) × Lends set_up (mymalloc 100 0 set_up) k)
mymalloc-myfree_example = mymalloc-myfree set_up 100 empty-IsReady (omega arith)

mymalloc_aliases_example :
    (a : ℕ) × (m' : Meta) × (m'' : Meta) × (mymalloc 10 (suc 0) set_up ≡ some (some a, m'))
    × (mymalloc 20 (suc 0) m' ≡ some (some a, m''))
mymalloc_aliases_example =
    mymalloc_aliases set_up 10 20 0 (empty-IsReady.numbered, empty-IsReady.starts 0 (omega arith))
      (omega arith) (omega arith)

mymalloc-Grants_example : Settles set_up 5000 2 (mymalloc 5000 0 set_up)
mymalloc-Grants_example =
    mymalloc-Grants set_up 5000 2 empty-IsReady (omega arith) (omega arith) (omega arith)
      (omega arith)
