-- ===== src/Threads/Scheduler/Valid.antt =====
-- The scheduler's invariant, and that the alarm handler keeps it.
use cs.Base.{
  Bool-cases, inl, inr, ◌≢◌, ltb, ℕ, zero, suc, ◌+◌, ◌%◌, ◌<◌, ◌≡◌, refl, List, [], ◌∷◌, Option,
  none, some, arith, length, ltb,
}
use cs.Threads.State.{
  Status, active, yield, wait_thread, wait_mutex, thread_exit, Sched, Outcome, switched, spins,
  fault, returned, get_next_at, behind, num_priority, running, Errno, After, Thread, Timer,
  set_thread,
}
use cs.Threads.Scheduler.{
  index, select, dispatch, advance_priority, preempt, bury, handle, alarm, wake, wake_joiner,
  demote, make_ready,
}
use cs.Threads.Scheduler.Conserve.{length-enqueue_at}

-- There are NUM_PRIORITY queues, the current level and every thread's level name one of them, and
-- the counter of threads run at the current level stands at 0.
pub record IsValid (s : Sched) : Type 0 where
  pub levels : length s.priority_level ≡ num_priority
  pub current : s.current_priority < num_priority
  pub priorities : (p : ℕ) → (s.threads p).priority < num_priority
  pub counter : s.run_at_priority ≡ 0

length-get_next_at :
    (i t : ℕ) (qs rest : List (List ℕ))
    → get_next_at qs i ≡ some (t, rest)
    → length rest ≡ length qs
unfolding get_next_at
length-get_next_at i t [] rest e = cc
length-get_next_at zero t ([] ∷ qs) rest e = cc
length-get_next_at zero t ((x ∷ q) ∷ qs) rest e = ground arith
length-get_next_at (suc i) t (q ∷ qs) rest e =
    go (get_next_at qs i) e (λ u qs' p. length-get_next_at i u qs qs' p)
  where
    go :
        (r : Option (ℕ × List (List ℕ)))
        → behind q r ≡ some (t, rest)
        → ((u : ℕ) (qs' : List (List ℕ)) → r ≡ some (u, qs') → length qs' ≡ length qs)
        → length rest ≡ suc (length qs)
    go none f ih = cc
    go (some (u, qs')) f ih = ground (arith, ih u qs' refl)

select_range :
    (fuel level t l : ℕ) (qs rest : List (List ℕ))
    → select fuel level qs ≡ some (t, l, rest)
    → level < num_priority
    → (l < num_priority) × (length rest ≡ length qs)
unfolding select
select_range zero level t l qs rest e h = cc
select_range (suc fuel) level t l qs rest e h = ground (
  arith,
  length-get_next_at level t qs rest,
  select_range fuel ((level + 1) % num_priority) t l qs rest,
)

advance-IsValid : {s : Sched} → IsValid s → IsValid (advance_priority s)
unfolding advance_priority
advance-IsValid v = grind arith

dispatch-IsValid : {s s' : Sched} → IsValid s → dispatch s ≡ switched s' → IsValid s'
unfolding dispatch
dispatch-IsValid {s} {s'} v e = record {
  levels = ground (arith, sel, w.levels);
  current = ground (arith, sel, w.current);
  priorities = ground (arith, w.priorities);
  counter = ground (arith, w.counter);
}
  where
    w : IsValid (advance_priority s)
    w = advance-IsValid v

    sel :
        select num_priority
            (advance_priority s).current_priority
            (advance_priority s).priority_level
          ≡ some (s'.running_thread, s'.current_priority, s'.priority_level)
        → (s'.current_priority < num_priority)
          × (length s'.priority_level ≡ length (advance_priority s).priority_level)
    sel f =
        select_range num_priority (advance_priority s).current_priority s'.running_thread
          s'.current_priority (advance_priority s).priority_level s'.priority_level f w.current

pub dispatch-ne-returned : (s s' : Sched) (e : Errno) → dispatch s ≢ returned e s'
unfolding dispatch
dispatch-ne-returned s s' e = ground arith

dispatch-After : {s : Sched} → IsValid s → After IsValid (dispatch s)
dispatch-After {s} v = go (dispatch s) refl
  where
    go : (o : Outcome) → dispatch s ≡ o → After IsValid o
    go (returned e s') p = absurd (dispatch-ne-returned s s' e p)
    go (switched s') p = dispatch-IsValid v p
    go spins p = tt
    go fault p = tt

pub make_ready-IsValid : {s : Sched} (t : ℕ) → IsValid s → IsValid (make_ready s t)
make_ready-IsValid {s} t v = record {
  levels = omega (arith, length-enqueue_at t (s.threads t).priority s.priority_level, v.levels);
  current = v.current;
  priorities = v.priorities;
  counter = v.counter;
}

pub set_thread-IsValid :
    {s : Sched} (p : ℕ) (t : Thread)
    → t.priority < num_priority
    → IsValid s
    → IsValid (set_thread s p t)
set_thread-IsValid p t h v = record {
  levels = v.levels;
  current = v.current;
  priorities = λ q. ground (arith, v.priorities q);
  counter = v.counter;
}

pub set_timer-IsValid : {s : Sched} (t : Timer) → IsValid s → IsValid (record s { timer = t })
set_timer-IsValid t v = record {
  levels = v.levels;
  current = v.current;
  priorities = v.priorities;
  counter = v.counter;
}

pub wake-IsValid : {s : Sched} (w : Option ℕ) → IsValid s → IsValid (wake s w)
unfolding wake
wake-IsValid none v = v
wake-IsValid {s} (some w) v = make_ready-IsValid w (set_thread-IsValid w _ (v.priorities w) v)

wake_joiner-IsValid : {s : Sched} (i : ℕ) → IsValid s → IsValid (wake_joiner s i)
unfolding wake_joiner
wake_joiner-IsValid {s} i v = wake-IsValid (s.waiting i) v

pub demote-IsValid : {s : Sched} → IsValid s → IsValid (demote s)
demote-IsValid {s} v = set_thread-IsValid s.running_thread _ (omega arith) v

preempt-After : {s : Sched} → IsValid s → After IsValid (preempt s)
unfolding preempt
preempt-After {s} v = elim (Bool-cases (ltb (running s).intervals_run s.current_priority)) [
  | inl e ↦ rw e (
      set_timer-IsValid _ (set_thread-IsValid s.running_thread _ (v.priorities s.running_thread) v))
  | inr e ↦ rw e (dispatch-After (make_ready-IsValid s.running_thread (demote-IsValid v)))
]

bury-After : {s : Sched} → IsValid s → After IsValid (bury s)
unfolding bury
bury-After {s} v = go (index (running s).id)
  where
    go :
        (i : Option ℕ)
        → After IsValid (elim i [ none ↦ fault | some i ↦ dispatch (wake_joiner s i) ])
    go none = tt
    go (some i) = dispatch-After (wake_joiner-IsValid i v)

pub handle-After : (st : Status) {s : Sched} → IsValid s → After IsValid (handle st s)
unfolding handle
handle-After active v = preempt-After v
handle-After yield v = dispatch-After (make_ready-IsValid _ v)
handle-After wait_thread v = dispatch-After v
handle-After wait_mutex v = dispatch-After v
handle-After thread_exit v = bury-After v

-- From a valid state the alarm handler keeps the invariant in whatever state it leaves the
-- program.
pub alarm-IsValid : (s : Sched) → IsValid s → After IsValid (alarm s)
unfolding alarm
alarm-IsValid s v = handle-After (running s).status (set_timer-IsValid _ v)
