-- ===== src/Threads/Queue.antt =====
-- make_queue, get_next and enqueue of asst1/my_pthread.c: a queue is a circular list of nodes on the
-- C heap, and the queue record points at its back. `none` is a fault (a dereference of a pointer
-- that is null or freed). What malloc returned is an argument, `none` for NULL.
pub mod Ring
pub mod Refine
pub mod Tests
use cs.Base.{ℕ, suc, ◌+◌, ◌-◌, Option, none, some, ◌==◌, if◌then◌else◌, update}

-- `Node`. It is only ever read when both fields have been written.
pub record Node : Type 0 where
  pub thread : ℕ
  pub next : ℕ

pub record Queue : Type 0 where
  pub back : Option ℕ
  pub size : ℕ

-- The nodes on the heap, by address.
abbrev pub Heap : Type 0
Heap = ℕ → Option Node

infixl 5 ◌>>=◌
abbrev pub ◌>>=◌ : {A B : Type 0} → Option A → (A → Option B) → Option B
none >>= f = none
some a >>= f = f a

pub make_queue : Queue
make_queue = record { back = none; size = 0 }

-- `p->next = v`
pub set_next : Heap → ℕ → ℕ → Option Heap
set_next h p v = do n ← h p; some (update h p (some (record n { next = v })))

-- The branch for one node.
pub take_last : Heap → Queue → Option (Option ℕ × Heap × Queue)
take_last h q = do
  b ← q.back
  n ← h b
  some (some n.thread, update h b none, record { back = none; size = q.size - 1 })

-- The branch for more than one: the oldest node is the one after the back.
pub take_first : Heap → Queue → Option (Option ℕ × Heap × Queue)
unfolding set_next
take_first h q = do
  b ← q.back
  last ← h b
  n ← h last.next
  h' ← set_next h b (if q.size == 2 then b else n.next)
  some (some n.thread, update h' last.next none, record q { size = q.size - 1 })

pub get_next : Heap → Queue → Option (Option ℕ × Heap × Queue)
get_next h q =
    if q.size == 0 then some (none, h, q) else if q.size == 1 then take_last h q else take_first h q

-- Links the node at `new` behind the back.
pub link_back : Heap → ℕ → ℕ → Queue → Option Heap
unfolding set_next
link_back h new thread q = do
  b ← q.back
  last ← h b
  set_next (update h new (some (record { thread = thread; next = last.next }))) b new

-- `new` is what malloc returned; the source does not test it.
pub enqueue : Heap → Option ℕ → ℕ → Queue → Option (Heap × Queue)
enqueue h none thread q = none
enqueue h (some new) thread q = do
  h' ←
      if q.size == 0
      then some (update h new (some (record { thread = thread; next = new })))
      else link_back h new thread q
  some (h', record { back = some new; size = q.size + 1 })
