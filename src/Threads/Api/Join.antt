-- ===== src/Threads/Api/Join.antt =====
-- pthread_exit and my_pthread_join together.
use cs.Base.{ℕ, ◌≡◌, refl, ◌≢◌, none, some, false, arith, eq_int, update, subst}
use cs.Threads.State.{
  wait_thread, Thread, Sched, returned, switched, success, thread_lim, running, pause_timer,
  resume_timer, After,
}
use cs.Threads.Scheduler.{index, alarm, wake_joiner}
use cs.Threads.Scheduler.Valid.{IsValid}
use cs.Threads.Scheduler.Conserve.{queued}
use cs.Threads.Scheduler.NoLoss.{queued-wake_joiner}
use cs.Threads.Scheduler.Frame.{Agrees, alarm-Agrees}
use cs.Threads.Ids.{free_id}
use cs.Threads.Api.{
  leave, pthread_exit, any_waits, join_wait, join_value, join_finish, join_table, my_pthread_join,
}

switched_Agrees : (s s' : Sched) → alarm s ≡ switched s' → Agrees (pause_timer s) s'
switched_Agrees s s' e = subst (After (Agrees (pause_timer s))) e (alarm-Agrees s)

-- A running thread that has its place in the table of threads leaves with a value, and the scheduler
-- switches to another one. A join by that one, for whose number no thread waits, with a struct of the
-- first one's number and without the caller's as the number it waits for, succeeds at once, gives the
-- value, empties the places in the tables and recycles the number.
pub join-exit :
    (target : Thread) (s s' : Sched) (i value : ℕ)
    → index (running s).id ≡ some i
    → s.thread_table i ≡ some s.running_thread
    → pthread_exit value s ≡ switched s'
    → index target.id ≡ some i
    → eq_int (running s').id target.id ≡ false
    → eq_int target.wait_id (running s').id ≡ false
    → any_waits thread_lim s' (running s').id ≡ false
    → (t : Sched) × (my_pthread_join target s' ≡ returned success t)
      × (join_value s' i ≡ some value)
      × (t.thread_table i ≡ none)
      × (t.waiting i ≡ none)
      × (t.ids ≡ free_id s.ids i)
unfolding pthread_exit leave my_pthread_join join_table join_value join_finish
join-exit target s s' i value hi ht e hi' h1 h2 h3 =
    let a : Agrees (pause_timer (leave value i s)) s' =
      switched_Agrees (leave value i s) s' (ground arith) in
    (
      resume_timer (record (pause_timer s') {
        waiting = update s'.waiting i none;
        thread_table = update s'.thread_table i none;
        ids = free_id s'.ids i;
      }),
      ground (arith, a.thread_table, a.done),
      ground (arith, a.thread_table, a.rets s.running_thread),
      ground arith,
      ground arith,
      ground (arith, a.ids),
    )

join_wait-status : (s : Sched) (i : ℕ) → (running (join_wait s i)).status ≡ wait_thread
unfolding join_wait
join_wait-status s i = ground arith

join_wait-waiting : (s : Sched) (i : ℕ) → (join_wait s i).waiting i ≡ some s.running_thread
unfolding join_wait
join_wait-waiting s i = ground arith

join_wait-levels : (s : Sched) (i : ℕ) → (join_wait s i).priority_level ≡ s.priority_level
unfolding join_wait
join_wait-levels s i = refl

join_wait-IsValid : {s : Sched} (i : ℕ) → IsValid s → IsValid (join_wait s i)
unfolding join_wait
join_wait-IsValid {s} i v = record {
  levels = v.levels;
  current = v.current;
  priorities = λ p. ground (arith, v.priorities p, v.priorities s.running_thread);
  counter = v.counter;
}

-- In a valid state a thread that passes the tests for a deadlock and joins an unfinished thread,
-- for which another one waits, is let in: it takes the place of that one in the table of waiting
-- threads, and when the joined thread ends the first one is not made ready.
pub join_overwrites :
    (target : Thread) (s : Sched) (i t w : ℕ)
    → IsValid s
    → eq_int (running s).id target.id ≡ false
    → eq_int target.wait_id (running s).id ≡ false
    → any_waits thread_lim s (running s).id ≡ false
    → index target.id ≡ some i
    → s.thread_table i ≡ some t
    → s.done i ≡ false
    → s.waiting i ≡ some w
    → w ≢ s.running_thread
    → (s' : Sched) × (my_pthread_join target s ≡ alarm s')
      × ((running s').status ≡ wait_thread)
      × (s'.waiting i ≡ some s.running_thread)
      × (queued w (wake_joiner s' i).priority_level ≡ queued w s.priority_level)
unfolding my_pthread_join join_table
join_overwrites target s i t w v h1 h2 h3 hi ht hd hw n = (
  join_wait s i,
  ground arith,
  join_wait-status s i,
  join_wait-waiting s i,
  ground (
    arith,
    queued-wake_joiner w i (join_wait s i) (join_wait-IsValid i v),
    join_wait-waiting s i,
    join_wait-levels s i,
  ),
)
