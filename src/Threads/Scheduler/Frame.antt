-- ===== src/Threads/Scheduler/Frame.antt =====
-- What the alarm handler leaves alone.
use cs.Base.{ℕ, ◌≡◌, refl, Option, none, some, arith, ltb, Bool-cases, inl, inr}
use cs.Threads.State.{
  Status, active, yield, wait_thread, wait_mutex, thread_exit, Thread, Sched, Outcome, returned,
  switched, spins, fault, After, running, set_thread, pause_timer,
}
use cs.Threads.Scheduler.{
  index, dispatch, preempt, bury, handle, alarm, wake, wake_joiner, advance_priority, make_ready,
}
use cs.Threads.Scheduler.Valid.{dispatch-ne-returned}

-- The tables, the ids, the mutexes and all return values and numbers of the threads are the same.
pub record Agrees (s s' : Sched) : Type 0 where
  pub thread_table : s'.thread_table ≡ s.thread_table
  pub waiting : s'.waiting ≡ s.waiting
  pub done : s'.done ≡ s.done
  pub ids : s'.ids ≡ s.ids
  pub mutexes : s'.mutexes ≡ s.mutexes
  pub mutex_list : s'.mutex_list ≡ s.mutex_list
  pub rets : (p : ℕ) → (s'.threads p).ret ≡ (s.threads p).ret
  pub numbers : (p : ℕ) → (s'.threads p).id ≡ (s.threads p).id
  pub wait_ids : (p : ℕ) → (s'.threads p).wait_id ≡ (s.threads p).wait_id

dispatch-Agrees : {s t : Sched} → Agrees s t → After (Agrees s) (dispatch t)
dispatch-Agrees {s} {t} a = go (dispatch t) refl
  where
    go : (o : Outcome) → dispatch t ≡ o → After (Agrees s) o
    go (returned e s') p = absurd (dispatch-ne-returned t s' e p)
    go (switched s') p = unfold dispatch advance_priority in (grind arith)
    go spins p = tt
    go fault p = tt

Agrees-refl : (s : Sched) → Agrees s s
Agrees-refl s = grind arith

set_thread-Agrees :
    {s t : Sched} (p : ℕ) (x : Thread)
    → x.ret ≡ (t.threads p).ret
    → x.id ≡ (t.threads p).id
    → x.wait_id ≡ (t.threads p).wait_id
    → Agrees s t
    → Agrees s (set_thread t p x)
set_thread-Agrees {s} {t} p x r i w a = record {
  thread_table = a.thread_table;
  waiting = a.waiting;
  done = a.done;
  ids = a.ids;
  mutexes = a.mutexes;
  mutex_list = a.mutex_list;
  rets = λ q. ground (arith, a.rets q);
  numbers = λ q. ground (arith, a.numbers q);
  wait_ids = λ q. ground (arith, a.wait_ids q);
}

make_ready-Agrees : {s t : Sched} (p : ℕ) → Agrees s t → Agrees s (make_ready t p)
make_ready-Agrees p a = grind arith

wake-Agrees : {s t : Sched} (w : Option ℕ) → Agrees s t → Agrees s (wake t w)
unfolding wake
wake-Agrees none a = a
wake-Agrees (some w) a = make_ready-Agrees w (set_thread-Agrees w _ refl refl refl a)

preempt-Agrees : (s : Sched) → After (Agrees s) (preempt s)
unfolding preempt
preempt-Agrees s = elim (Bool-cases (ltb (running s).intervals_run s.current_priority)) [
  | inl e ↦
      rw e (grind (arith, set_thread-Agrees s.running_thread _ refl refl refl (Agrees-refl s)))
  | inr e ↦ rw e (
      dispatch-Agrees (
        make_ready-Agrees s.running_thread
          (set_thread-Agrees s.running_thread _ refl refl refl (Agrees-refl s))))
]

bury-Agrees : (s : Sched) → After (Agrees s) (bury s)
unfolding bury wake_joiner
bury-Agrees s = go (index (running s).id)
  where
    go :
        (i : Option ℕ)
        → After (Agrees s) (elim i [ none ↦ fault | some i ↦ dispatch (wake_joiner s i) ])
    go none = tt
    go (some i) = dispatch-Agrees (wake-Agrees (s.waiting i) (Agrees-refl s))

handle-Agrees : (st : Status) (s : Sched) → After (Agrees s) (handle st s)
unfolding handle
handle-Agrees active s = preempt-Agrees s
handle-Agrees yield s = dispatch-Agrees (make_ready-Agrees s.running_thread (Agrees-refl s))
handle-Agrees wait_thread s = dispatch-Agrees (Agrees-refl s)
handle-Agrees wait_mutex s = dispatch-Agrees (Agrees-refl s)
handle-Agrees thread_exit s = bury-Agrees s

-- The alarm handler changes no table of threads, of waiting threads or of mutexes, no mutex, no
-- flag of a finished thread, and no thread's number, awaited number or return value.
pub alarm-Agrees : (s : Sched) → After (Agrees (pause_timer s)) (alarm s)
unfolding alarm
alarm-Agrees s = handle-Agrees (running s).status (pause_timer s)
