-- ===== src/Threads/Fixture.antt =====
-- A scheduler with two threads, for the tests of the thread library: thread 1 runs and thread 2 is
-- ready, and mutex 7 is active and free.
use cs.Base.{ℕ, [], ◌∷◌, pos, minus_one, none, some, true, false}
use cs.Threads.State.{
  Status, active, Thread, Mutex, Sched, Outcome, returned, switched, spins, fault,
}

abbrev pub thread : Status → ℕ → Thread
thread status p = record {
  id = pos p;
  priority = 0;
  intervals_run = 0;
  wait_id = minus_one;
  status = status;
  ret = 0;
}

abbrev pub two : Sched
two = record {
  threads = thread active;
  mutexes = λ m. record { waiting = some []; user = none };
  priority_level = (2 ∷ []) ∷ [] ∷ [] ∷ [] ∷ [] ∷ [];
  current_priority = 0;
  run_at_priority = 0;
  timer = record { armed = true; cont = true };
  running_thread = 1;
  init = true;
  ids = record { thread_count = 3; tid_list = [] };
  thread_table = λ i. some i;
  waiting = λ i. none;
  mutex_list = some 7 ∷ none ∷ [];
  done = λ i. false;
}

-- The same with every thread's status set.
abbrev pub with_status : Status → Sched
with_status status = record two { threads = thread status }

-- The same with every mutex in the given state.
abbrev pub with_mutex : Mutex → Sched
with_mutex m = record two { mutexes = λ p. m }

-- The state in which an outcome leaves the program, `two` where there is none.
abbrev pub left_in : Outcome → Sched
left_in (returned e s) = s
left_in (switched s) = s
left_in spins = two
left_in fault = two
