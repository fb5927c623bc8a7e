-- ===== src/Threads/State.antt =====
-- The globals of asst1/my_pthread.c and the structs of asst1/my_pthread_t.h. A thread and a mutex
-- are known by their addresses. The queues are lists, oldest first: `Queue.Refine` shows that the
-- linked queues behave so.
use cs.Base.{ℕ, zero, suc, ◌++◌, List, [], ◌∷◌, Option, none, some, Bool, true, false, ℤ, update}

pub data Status : Type 0 where
  active yield wait_thread wait_mutex thread_exit : Status

-- `my_pthread_t` without its context. `ret` is an address, 0 for NULL.
pub record Thread : Type 0 where
  pub id : ℤ
  pub priority : ℕ
  pub intervals_run : ℕ
  pub wait_id : ℤ
  pub status : Status
  pub ret : ℕ

-- `my_pthread_mutex_t`. `waiting` is `none` once the queue is freed, or if malloc gave none.
pub record Mutex : Type 0 where
  pub waiting : Option (List ℕ)
  pub user : Option ℕ

-- `thread_count` and the recycled ids, the next to be taken first.
pub record Ids : Type 0 where
  pub thread_count : ℕ
  pub tid_list : List ℕ

-- The interval timer: whether it runs, and whether the time saved in `cont` is nonzero.
pub record Timer : Type 0 where
  pub armed : Bool
  pub cont : Bool

pub record Sched : Type 0 where
  pub threads : ℕ → Thread
  pub mutexes : ℕ → Mutex
  pub priority_level : List (List ℕ)
  pub current_priority : ℕ
  pub run_at_priority : ℕ
  pub timer : Timer
  pub running_thread : ℕ
  pub init : Bool
  pub ids : Ids
  pub thread_table : ℕ → Option ℕ
  pub waiting : ℕ → Option ℕ
  pub mutex_list : List (Option ℕ)
  pub done : ℕ → Bool

abbrev pub num_priority : ℕ
num_priority = 5

abbrev pub thread_lim : ℕ
thread_lim = 1000

abbrev pub mutex_lim : ℕ
mutex_lim = 1000

pub data Errno : Type 0 where
  success ebusy edeadlk eperm esrch einval enomem eagain failure : Errno

-- How a call ends: it returns; the caller is off the processor, in the state in which the next
-- thread runs; the scheduler loops for ever since no thread is ready; an access out of bounds, or
-- through a pointer that is null or freed.
pub data Outcome : Type 0 where
  returned : Errno → Sched → Outcome
  switched : Sched → Outcome
  spins : Outcome
  fault : Outcome

abbrev pub set_thread : Sched → ℕ → Thread → Sched
set_thread s p t = record s { threads = update s.threads p t }

abbrev pub set_mutex : Sched → ℕ → Mutex → Sched
set_mutex s p m = record s { mutexes = update s.mutexes p m }

abbrev pub running : Sched → Thread
running s = s.threads s.running_thread

-- setitimer(ITIMER_VIRTUAL, pause, cont)
abbrev pub pause_timer : Sched → Sched
pause_timer s = record s { timer = record { armed = false; cont = s.timer.armed } }

-- setitimer(ITIMER_VIRTUAL, cont, NULL)
abbrev pub resume_timer : Sched → Sched
resume_timer s = record s { timer = record { armed = s.timer.cont; cont = s.timer.cont } }

-- setitimer(ITIMER_VIRTUAL, timer, NULL)
abbrev pub start_timer : Sched → Sched
start_timer s = record s { timer = record { armed = true; cont = s.timer.cont } }

-- enqueue(t, priority_level[i])
unfoldable pub enqueue_at : List (List ℕ) → ℕ → ℕ → List (List ℕ)
enqueue_at [] i t = []
enqueue_at (q ∷ qs) zero t = (q ++ t ∷ []) ∷ qs
enqueue_at (q ∷ qs) (suc i) t = q ∷ enqueue_at qs i t

-- The oldest of the first queue.
unfoldable pub pop_front : List ℕ → List (List ℕ) → Option (ℕ × List (List ℕ))
pop_front [] qs = none
pop_front (t ∷ q) qs = some (t, q ∷ qs)

-- The result for the later queues, with `q` put back before them.
unfoldable pub behind : List ℕ → Option (ℕ × List (List ℕ)) → Option (ℕ × List (List ℕ))
behind q none = none
behind q (some (t, qs)) = some (t, q ∷ qs)

-- get_next(priority_level[i]), `none` for NULL
unfoldable pub get_next_at : List (List ℕ) → ℕ → Option (ℕ × List (List ℕ))
unfolding pop_front behind
get_next_at [] i = none
get_next_at (q ∷ qs) zero = pop_front q qs
get_next_at (q ∷ qs) (suc i) = behind q (get_next_at qs i)

-- The predicate holds in the state in which the outcome leaves the program, if there is one.
abbrev pub After {ℓ} : (Sched → Type ℓ) → Outcome → Type ℓ
After P (returned e s) = P s
After P (switched s) = P s
After P spins = Unit
After P fault = Unit
