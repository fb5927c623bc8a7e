-- ===== src/Threads/Scheduler/Conserve.antt =====
-- No thread is lost: how often a thread is running or ready, across the alarm handler.
use cs.Base.{
  ℕ, zero, suc, ◌+◌, ◌%◌, ◌<◌, ◌≡◌, refl, ◌++◌, List, [], ◌∷◌, Option, none, some, arith, length,
  ◌==◌, if◌then◌else◌,
}
use cs.Threads.State.{
  Status, active, yield, wait_thread, wait_mutex, thread_exit, Sched, switched, enqueue_at,
  get_next_at, behind, num_priority, running,
}
use cs.Threads.Scheduler.{index, select, dispatch, advance_priority}

-- 1 if the two threads are one.
abbrev pub one : ℕ → ℕ → ℕ
one a t = if a == t then 1 else 0

abbrev pub count : ℕ → List ℕ → ℕ
count a [] = 0
count a (t ∷ ts) = one a t + count a ts

-- How often the thread stands in the ready queues.
abbrev pub queued : ℕ → List (List ℕ) → ℕ
queued a [] = 0
queued a (q ∷ qs) = count a q + queued a qs

count-snoc : (a t : ℕ) (ts : List ℕ) → count a (ts ++ t ∷ []) ≡ count a ts + one a t
count-snoc a t [] = omega arith
count-snoc a t (x ∷ ts) = omega (arith, count-snoc a t ts)

pub queued-enqueue_at :
    (a t i : ℕ) (qs : List (List ℕ))
    → i < length qs
    → queued a (enqueue_at qs i t) ≡ queued a qs + one a t
unfolding enqueue_at
queued-enqueue_at a t i [] h = absurd (omega arith)
queued-enqueue_at a t zero (q ∷ qs) h = omega (arith, count-snoc a t q)
queued-enqueue_at a t (suc i) (q ∷ qs) h = omega (arith, queued-enqueue_at a t i qs (omega arith))

pub length-enqueue_at : (t i : ℕ) (qs : List (List ℕ)) → length (enqueue_at qs i t) ≡ length qs
unfolding enqueue_at
length-enqueue_at t i [] = refl
length-enqueue_at t zero (q ∷ qs) = refl
length-enqueue_at t (suc i) (q ∷ qs) = omega (arith, length-enqueue_at t i qs)

pub queued-get_next_at :
    (a i t : ℕ) (qs rest : List (List ℕ))
    → get_next_at qs i ≡ some (t, rest)
    → queued a qs ≡ one a t + queued a rest
unfolding get_next_at
queued-get_next_at a i t [] rest e = cc
queued-get_next_at a zero t ([] ∷ qs) rest e = cc
queued-get_next_at a zero t ((x ∷ q) ∷ qs) rest e = ground arith
queued-get_next_at a (suc i) t (q ∷ qs) rest e =
    go (get_next_at qs i) e (λ u qs' p. queued-get_next_at a i u qs qs' p)
  where
    go :
        (r : Option (ℕ × List (List ℕ)))
        → behind q r ≡ some (t, rest)
        → ((u : ℕ) (qs' : List (List ℕ)) → r ≡ some (u, qs') → queued a qs ≡ one a u + queued a qs')
        → queued a (q ∷ qs) ≡ one a t + queued a rest
    go none f ih = cc
    go (some (u, qs')) f ih = ground (arith, ih u qs' refl)

pub queued-select :
    (a fuel level t l : ℕ) (qs rest : List (List ℕ))
    → select fuel level qs ≡ some (t, l, rest)
    → queued a qs ≡ one a t + queued a rest
unfolding select
queued-select a zero level t l qs rest e = cc
queued-select a (suc fuel) level t l qs rest e = ground (
  arith,
  queued-get_next_at a level t qs rest,
  queued-select a fuel ((level + 1) % num_priority) t l qs rest,
)

-- How often the thread is running or ready.
abbrev pub runnable : ℕ → Sched → ℕ
runnable a s = one a s.running_thread + queued a s.priority_level

pub advance-levels : (s : Sched) → (advance_priority s).priority_level ≡ s.priority_level
unfolding advance_priority
advance-levels s = ground arith

-- Whatever runs next comes out of the ready queues.
pub queued-dispatch :
    (a : ℕ) (s s' : Sched) → dispatch s ≡ switched s' → runnable a s' ≡ queued a s.priority_level
unfolding dispatch
queued-dispatch a s s' e = ground (
  arith,
  advance-levels s,
  queued-select a num_priority (advance_priority s).current_priority s'.running_thread
      s'.current_priority (advance_priority s).priority_level s'.priority_level,
)

abbrev pub waiter : ℕ → Option ℕ → ℕ
waiter a none = 0
waiter a (some w) = one a w

-- The thread that waits for the end of the one with this number, if there is one, against `a`.
abbrev pub joiner : ℕ → Sched → Option ℕ → ℕ
joiner a s none = 0
joiner a s (some i) = waiter a (s.waiting i)

-- What a thread that leaves the processor in the given status leaves behind in the ready queues.
abbrev pub left_behind : Status → ℕ → Sched → ℕ
left_behind active a s = one a s.running_thread
left_behind yield a s = one a s.running_thread
left_behind wait_thread a s = 0
left_behind wait_mutex a s = 0
left_behind thread_exit a s = joiner a s (index (running s).id)
