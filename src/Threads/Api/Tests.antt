-- ===== src/Threads/Api/Tests.antt =====
-- The properties of join at a scheduler with two threads.
use cs.Base.{ℕ, eq_int, minus_one, zero, suc, ◌≡◌, refl, none, some, false, arith, update, pos}
use cs.Threads.State.{
  active, wait_thread, Sched, switched, returned, success, thread_lim, running, get_next_at,
}
use cs.Threads.Scheduler.{
  alarm, handle, bury, dispatch, advance_priority, select, wake_joiner, wake,
}
use cs.Threads.Scheduler.Conserve.{queued}
use cs.Threads.Scheduler.Valid.{IsValid}
use cs.Threads.Ids.{free_id}
use cs.Threads.Api.{pthread_exit, leave, join_value, my_pthread_join, any_waits, waits_on}
use cs.Threads.Api.Join.{join-exit, join_overwrites}
use cs.Threads.Fixture.{thread, two, left_in}

exit_switches : pthread_exit 9 two ≡ switched (left_in (pthread_exit 9 two))
unfolding pthread_exit leave alarm handle bury dispatch advance_priority select get_next_at
    wake_joiner wake
exit_switches = refl

abbrev exited : Sched
exited = left_in (pthread_exit 9 two)

nobody_waits : (i : ℕ) → exited.waiting i ≡ none
unfolding pthread_exit leave alarm handle bury dispatch advance_priority select get_next_at
    wake_joiner wake
nobody_waits i = refl

any_waits-exited : (n : ℕ) → any_waits n exited (running exited).id ≡ false
unfolding any_waits waits_on
any_waits-exited zero = refl
any_waits-exited (suc n) = rw (nobody_waits n) (any_waits-exited n)

other_runs :
    (eq_int (running exited).id (pos 1) ≡ false) × (eq_int minus_one (running exited).id ≡ false)
unfolding pthread_exit leave alarm handle bury dispatch advance_priority select get_next_at
    wake_joiner wake
other_runs = (refl, refl)

join-exit_example :
    (t : Sched) × (my_pthread_join (thread active 1) exited ≡ returned success t)
    × (join_value exited 1 ≡ some 9)
    × (t.thread_table 1 ≡ none)
    × (t.waiting 1 ≡ none)
    × (t.ids ≡ free_id two.ids 1)
join-exit_example =
    join-exit (thread active 1) two exited 1 9 refl refl exit_switches refl other_runs.0
      other_runs.1 (any_waits-exited thread_lim)

-- Thread 5 waits for thread 2.
abbrev joined : Sched
joined = record two { waiting = update (λ i. none) 2 (some 5) }

joined-IsValid : IsValid joined
joined-IsValid = record {
  levels = refl;
  current = omega arith;
  priorities = λ p. omega arith;
  counter = refl;
}

waits_on-two : (i : ℕ) → waits_on joined (joined.waiting i) (pos 1) ≡ false
unfolding waits_on
waits_on-two i = ground arith

any_waits-two : (n : ℕ) → any_waits n joined (pos 1) ≡ false
unfolding any_waits
any_waits-two zero = refl
any_waits-two (suc n) = rw (waits_on-two n) (any_waits-two n)

join_overwrites_example :
    (s' : Sched) × (my_pthread_join (thread active 2) joined ≡ alarm s')
    × ((running s').status ≡ wait_thread)
    × (s'.waiting 2 ≡ some 1)
    × (queued 5 (wake_joiner s' 2).priority_level ≡ queued 5 joined.priority_level)
join_overwrites_example =
    join_overwrites (thread active 2) joined 2 2 5 joined-IsValid refl refl
      (any_waits-two thread_lim) refl refl refl refl (omega arith)
