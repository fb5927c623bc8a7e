-- ===== src/Threads/Scheduler/Tests.antt =====
-- The properties of the alarm handler at a scheduler with two threads.
use cs.Base.{ℕ, ◌+◌, ◌<◌, ◌≡◌, refl, ◌↔◌, arith}
use cs.Threads.State.{active, spins, switched, After, num_priority}
use cs.Threads.Scheduler.{dispatch, alarm, handle, preempt, advance_priority, select}
use cs.Threads.Scheduler.Select.{IsIdle, FoundAfter, dispatch-spins_iff, dispatch_next_level}
use cs.Threads.Scheduler.Conserve.{runnable, queued, left_behind}
use cs.Threads.Scheduler.Valid.{IsValid, alarm-IsValid}
use cs.Threads.Scheduler.NoLoss.{runnable-alarm}
use cs.Threads.Scheduler.Fair.{Bypassed, start, passed, Bypassed-bound}
use cs.Threads.State.{enqueue_at, get_next_at}
use cs.Threads.Fixture.{two, left_in}

two-IsValid : IsValid two
two-IsValid = record {
  levels = refl;
  current = omega arith;
  priorities = λ p. omega arith;
  counter = refl;
}

dispatch-spins_iff_example : (dispatch two ≡ spins) ↔ IsIdle two.priority_level
dispatch-spins_iff_example = dispatch-spins_iff two (two-IsValid.current)

two_switches : dispatch two ≡ switched (left_in (dispatch two))
unfolding dispatch advance_priority select get_next_at
two_switches = refl

dispatch_next_level_example :
    (d : ℕ) × (d < num_priority)
    × FoundAfter 1 two.priority_level
        (left_in (dispatch two)).running_thread
        (left_in (dispatch two)).current_priority
        (left_in (dispatch two)).priority_level
        d
dispatch_next_level_example =
    dispatch_next_level two (left_in (dispatch two)) (two-IsValid.current) refl two_switches

alarm-IsValid_example : After IsValid (alarm two)
alarm-IsValid_example = alarm-IsValid two two-IsValid

two-alarm_switches : alarm two ≡ switched (left_in (alarm two))
unfolding alarm handle preempt dispatch advance_priority select get_next_at enqueue_at
two-alarm_switches = refl

runnable-alarm_example :
    runnable 1 (left_in (alarm two)) ≡ left_behind active 1 two + queued 1 two.priority_level
runnable-alarm_example = runnable-alarm 1 two (left_in (alarm two)) two-IsValid two-alarm_switches

-- Thread 1 runs again, and thread 2, which was in front at level 0, is passed over.
first_again : (left_in (alarm two)).running_thread ≡ 1
unfolding alarm handle preempt dispatch advance_priority select get_next_at enqueue_at
first_again = refl

two-Bypassed : Bypassed 2 1 two (left_in (alarm two))
two-Bypassed = passed two-alarm_switches (λ e. omega (arith, e, first_again)) start

Bypassed-bound_example : 1 < num_priority
Bypassed-bound_example =
    Bypassed-bound 2 0 1 two (left_in (alarm two)) (omega arith) two-IsValid refl two-Bypassed
