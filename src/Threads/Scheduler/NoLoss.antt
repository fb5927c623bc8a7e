-- ===== src/Threads/Scheduler/NoLoss.antt =====
-- No thread is lost by the alarm handler: what was running or ready is so afterwards, but for a
-- thread that waits or has exited.
use cs.Base.{ℕ, ◌+◌, ◌≡◌, refl, Option, none, some, arith, ltb, Bool-cases, inl, inr}
use cs.Threads.State.{
  Status, active, yield, wait_thread, wait_mutex, thread_exit, Sched, switched, fault, running,
  pause_timer,
}
use cs.Threads.Scheduler.{
  index, dispatch, preempt, bury, handle, alarm, wake, wake_joiner, demote, make_ready,
}
use cs.Threads.Scheduler.Conserve.{
  one, queued, runnable, waiter, joiner, left_behind, queued-dispatch, queued-enqueue_at,
}
use cs.Threads.Scheduler.Valid.{IsValid, demote-IsValid, set_thread-IsValid, set_timer-IsValid}

queued-make_ready :
    (a t : ℕ) (s : Sched)
    → IsValid s
    → queued a (make_ready s t).priority_level ≡ queued a s.priority_level + one a t
queued-make_ready a t s v =
    queued-enqueue_at a t (s.threads t).priority s.priority_level
      (omega (arith, v.levels, v.priorities t))

queued-wake :
    (a : ℕ) (w : Option ℕ) (s : Sched)
    → IsValid s
    → queued a (wake s w).priority_level ≡ queued a s.priority_level + waiter a w
unfolding wake
queued-wake a none s v = omega arith
queued-wake a (some w) s v =
    queued-make_ready a w _ (set_thread-IsValid {s = s} w _ (v.priorities w) v)

pub queued-wake_joiner :
    (a i : ℕ) (s : Sched)
    → IsValid s
    → queued a (wake_joiner s i).priority_level ≡ queued a s.priority_level + waiter a (s.waiting i)
unfolding wake_joiner
queued-wake_joiner a i s v = queued-wake a (s.waiting i) s v

preempt-runnable :
    (a : ℕ) (s s' : Sched)
    → IsValid s
    → preempt s ≡ switched s'
    → runnable a s' ≡ one a s.running_thread + queued a s.priority_level
unfolding preempt
preempt-runnable a s s' v e = elim (Bool-cases (ltb (running s).intervals_run s.current_priority)) [
  | inl p ↦ absurd (ground arith)
  | inr p ↦ omega (
    arith,
    queued-dispatch a (make_ready (demote s) s.running_thread) s' (ground arith),
    queued-make_ready a s.running_thread (demote s) (demote-IsValid v),
  )
]

bury-runnable :
    (a : ℕ) (s s' : Sched)
    → IsValid s
    → bury s ≡ switched s'
    → runnable a s' ≡ joiner a s (index (running s).id) + queued a s.priority_level
unfolding bury
bury-runnable a s s' v = go (index (running s).id)
  where
    go :
        (i : Option ℕ)
        → elim i [ none ↦ fault | some i ↦ dispatch (wake_joiner s i) ] ≡ switched s'
        → runnable a s' ≡ joiner a s i + queued a s.priority_level
    go none e = cc
    go (some i) e =
        unfold wake_joiner in
        omega
          (arith, queued-dispatch a (wake s (s.waiting i)) s' e, queued-wake a (s.waiting i) s v)

handle-runnable :
    (st : Status) (a : ℕ) (s s' : Sched)
    → IsValid s
    → handle st s ≡ switched s'
    → runnable a s' ≡ left_behind st a s + queued a s.priority_level
unfolding handle
handle-runnable active a s s' v e = preempt-runnable a s s' v e
handle-runnable yield a s s' v e = omega (
  arith,
  queued-dispatch a (make_ready s s.running_thread) s' e,
  queued-make_ready a s.running_thread s v,
)
handle-runnable wait_thread a s s' v e = omega (arith, queued-dispatch a s s' e)
handle-runnable wait_mutex a s s' v e = omega (arith, queued-dispatch a s s' e)
handle-runnable thread_exit a s s' v e = bury-runnable a s s' v e

left_behind-timer :
    (st : Status) (a : ℕ) (s : Sched) → left_behind st a s ≡ left_behind st a (pause_timer s)
left_behind-timer active a s = refl
left_behind-timer yield a s = refl
left_behind-timer wait_thread a s = refl
left_behind-timer wait_mutex a s = refl
left_behind-timer thread_exit a s = refl

-- If the alarm handler switches threads, then in a valid state every thread is running or ready just
-- as often as before, except that a running thread that waits or has exited is no longer counted,
-- and that the thread waiting for the end of one that has exited becomes ready.
pub runnable-alarm :
    (a : ℕ) (s s' : Sched)
    → IsValid s
    → alarm s ≡ switched s'
    → runnable a s' ≡ left_behind (running s).status a s + queued a s.priority_level
unfolding alarm
runnable-alarm a s s' v e =
    rw (left_behind-timer (running s).status a s)
      (handle-runnable (running s).status a (pause_timer s) s' (set_timer-IsValid _ v) e)
