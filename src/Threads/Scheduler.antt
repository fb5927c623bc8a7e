-- ===== src/Threads/Scheduler.antt =====
-- scheduler_init and scheduler_alarm_handler of asst1/my_pthread.c. What swapcontext runs next is
-- the thread that the state names as running.
pub mod Select
pub mod Front
pub mod Fair
pub mod Conserve
pub mod Valid
pub mod NoLoss
pub mod Frame
pub mod Tests
use cs.Base.{
  ℕ, zero, suc, ◌+◌, ◌-◌, ◌%◌, List, [], Option, none, some, Bool, true, ℤ, pos, negsuc, ltb,
  if◌then◌else◌, replicate,
}
use cs.Threads.State.{
  Status, active, yield, wait_thread, wait_mutex, thread_exit, Sched, Outcome, returned, switched,
  spins, fault, success, failure, Errno, num_priority, thread_lim, mutex_lim, set_thread, running,
  pause_timer, start_timer, enqueue_at, get_next_at,
}

-- The index that `table[id]` reads, if it is inside the tables of THREAD_LIM entries.
abbrev pub index : ℤ → Option ℕ
index (pos n) = if ltb n thread_lim then some n else none
index (negsuc n) = none

-- `main` is what malloc returned for the thread of main, whose other fields keep what the memory
-- held; `context` is whether getcontext succeeds.
pub scheduler_init : Bool → ℕ → Sched → Errno × Sched
scheduler_init context main s = if context then (success, ready) else (failure, tables)
  where
    tables : Sched
    tables = record s {
      ids = record { thread_count = 1; tid_list = [] };
      priority_level = replicate num_priority [];
      thread_table = λ i. none;
      mutex_list = replicate mutex_lim none;
      running_thread = main;
    }

    ready : Sched
    ready =
        start_timer
          (record (set_thread tables main (record (s.threads main) {
            status = active;
            priority = 0;
            intervals_run = 0;
            id = pos 0;
          })) { init = true })

-- enqueue(t, priority_level[t->priority])
abbrev pub make_ready : Sched → ℕ → Sched
make_ready s t = record s { priority_level = enqueue_at s.priority_level (s.threads t).priority t }

-- The thread has used its time at this level: one level down, or from the lowest back to the top.
abbrev pub demote : Sched → Sched
demote s =
    set_thread s s.running_thread (record (running s) {
      intervals_run = 0;
      priority = ((running s).priority + 1) % num_priority;
    })

unfoldable pub wake : Sched → Option ℕ → Sched
wake s none = s
wake s (some w) = make_ready (set_thread s w (record (s.threads w) { status = active })) w

-- Wakes the thread that waits for number `i`, if there is one.
unfoldable pub wake_joiner : Sched → ℕ → Sched
wake_joiner s i = wake s (s.waiting i)

-- The counters: `run_at_priority++ < NUM_PRIORITY - current_priority`.
unfoldable pub advance_priority : Sched → Sched
advance_priority s =
    if ltb s.run_at_priority (num_priority - s.current_priority)
    then record s {
      current_priority = (s.current_priority + 1) % num_priority;
      run_at_priority = 0;
    }
    else record s { run_at_priority = s.run_at_priority + 1 }

-- The search for the next thread, at most `fuel` levels of it: the thread, its level, what is left.
unfoldable pub select : ℕ → ℕ → List (List ℕ) → Option (ℕ × ℕ × List (List ℕ))
select zero level qs = none
select (suc fuel) level qs = elim (get_next_at qs level) [
  | some (t, qs') ↦ some (t, level, qs')
  | none ↦ select fuel ((level + 1) % num_priority) qs
]

-- From the counters to swapcontext. After NUM_PRIORITY empty levels the loop never ends.
unfoldable pub dispatch : Sched → Outcome
dispatch s =
    let a = advance_priority s in
    elim (select num_priority a.current_priority a.priority_level) [
      | none ↦ spins
      | some (t, level, qs) ↦ switched (
          start_timer
            (record a { running_thread = t; current_priority = level; priority_level = qs }))
    ]

-- The case of an active thread: it goes on while it has time left at this level.
unfoldable pub preempt : Sched → Outcome
preempt s =
    if ltb (running s).intervals_run s.current_priority
    then returned success (
        start_timer (
          set_thread s s.running_thread
            (record (running s) { intervals_run = (running s).intervals_run + 1 })))
    else dispatch (make_ready (demote s) s.running_thread)

-- The case of a thread that has exited.
unfoldable pub bury : Sched → Outcome
bury s = elim (index (running s).id) [ none ↦ fault | some i ↦ dispatch (wake_joiner s i) ]

unfoldable pub handle : Status → Sched → Outcome
handle active s = preempt s
handle yield s = dispatch (make_ready s s.running_thread)
handle wait_mutex s = dispatch s
handle thread_exit s = bury s
handle wait_thread s = dispatch s

-- The handler of SIGVTALRM, whether the timer or `raise` brought it.
unfoldable pub alarm : Sched → Outcome
alarm s = handle (running s).status (pause_timer s)
