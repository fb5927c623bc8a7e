-- ===== src/Threads/Api.antt =====
-- my_pthread_create, my_pthread_yield, pthread_exit and my_pthread_join of asst1/my_pthread.c.
-- `raise(SIGVTALRM)` is a call of the alarm handler. A call that blocks ends there; what it does
-- once its thread runs again is a function of its own (`join_finish`).
pub mod Join
pub mod Tests
use cs.Base.{
  ℕ, zero, suc, Option, none, some, Bool, true, false, not, ◌||◌, ℤ, pos, minus_one, eq_int,
  if◌then◌else◌, update,
}
use cs.Threads.State.{
  Status, active, yield, wait_thread, thread_exit, Thread, Sched, Outcome, returned, fault, Errno,
  success, failure, eagain, edeadlk, einval, esrch, thread_lim, set_thread, running, pause_timer,
  resume_timer, enqueue_at,
}
use cs.Threads.Scheduler.{index, scheduler_init, alarm}
use cs.Threads.Ids.{get_id, free_id}

-- What the calls of my_pthread_create to other code give: whether getcontext succeeds in
-- scheduler_init and for the new thread, what malloc gives for the thread of main, and whether it
-- gives a stack.
pub record Platform : Type 0 where
  pub main_context : Bool
  pub main_thread : ℕ
  pub context : Bool
  pub stack : Bool

-- The thread at `p` gets number `i`, and stands ready at the first level.
pub register : Sched → ℕ → ℕ → Sched
register s p i =
    record (set_thread s p (record {
      id = pos i;
      wait_id = minus_one;
      priority = 0;
      intervals_run = 0;
      ret = 0;
      status = active;
    })) {
      thread_table = update s.thread_table i (some p);
      waiting = update s.waiting i none;
      done = update s.done i false;
      priority_level = enqueue_at s.priority_level 0 p;
    }

-- The part behind makecontext. With the id -1 it writes in front of the tables.
pub add_thread : Sched → ℕ → Outcome
unfolding register get_id
add_thread s p =
    let (id, ids) = get_id s.ids in
    elim (index id) [
      | none ↦ fault
      | some i ↦ returned success (resume_timer (register (record s { ids = ids }) p i))
    ]

-- The source's test `attr < 0` holds of no pointer.
unfoldable pub my_pthread_create : Platform → ℕ → Sched → Outcome
unfolding add_thread
my_pthread_create e p s =
    let s0 = if s.init then s else (scheduler_init e.main_context e.main_thread s).1 in
    let s1 = pause_timer s0 in
    if not e.context
    then returned failure (resume_timer s1)
    else if not e.stack
    then returned eagain (resume_timer s1)
    else add_thread s1 p

pub my_pthread_yield : Sched → Outcome
my_pthread_yield s = alarm (set_thread s s.running_thread (record (running s) { status = yield }))

-- The state that pthread_exit hands to the handler.
pub leave : ℕ → ℕ → Sched → Sched
leave value i s =
    let s1 = pause_timer s in
    record (set_thread s1 s.running_thread
      (record (running s) { ret = value; status = thread_exit })) { done = update s.done i true }

pub pthread_exit : ℕ → Sched → Outcome
unfolding leave
pthread_exit value s = elim (index (running s).id) [
  | none ↦ fault
  | some i ↦ alarm (leave value i s)
]

-- `waiting[i] && waiting[i]->wait_id == id`
pub waits_on : Sched → Option ℕ → ℤ → Bool
waits_on s none id = false
waits_on s (some w) id = eq_int (s.threads w).wait_id id

-- The scan of the first `n` entries of `waiting`, from the last to the first.
pub any_waits : ℕ → Sched → ℤ → Bool
unfolding waits_on
any_waits zero s id = false
any_waits (suc n) s id = waits_on s (s.waiting n) id || any_waits n s id

-- The state that a blocking join hands to the handler.
pub join_wait : Sched → ℕ → Sched
join_wait s i =
    let s1 = pause_timer s in
    resume_timer
      (record (set_thread s1 s.running_thread
        (record (running s) { status = wait_thread; wait_id = pos i })) {
          waiting = update s.waiting i (some s.running_thread);
        })

-- What a join stores through a value_ptr that is not NULL.
pub join_value : Sched → ℕ → Option ℕ
join_value s i = elim (s.thread_table i) [ none ↦ none | some t ↦ some (s.threads t).ret ]

-- The part of a join after the wait, if there was one. It reads the table again.
pub join_finish : Sched → ℕ → Outcome
join_finish s i = elim (s.thread_table i) [
  | none ↦ fault
  | some t ↦ returned success (
      resume_timer (record (pause_timer s) {
        waiting = update s.waiting i none;
        thread_table = update s.thread_table i none;
        ids = free_id s.ids i;
      }))
]

-- The part of a join behind the tests for a deadlock.
pub join_table : Sched → ℕ → Outcome
join_table s i = elim (s.thread_table i) [
  | none ↦ returned esrch s
  | some t ↦ if s.done i then join_finish s i else alarm (join_wait s i)
]

-- `target` is the caller's copy of the thread's struct.
pub my_pthread_join : Thread → Sched → Outcome
my_pthread_join target s =
    if eq_int (running s).id target.id
    then returned edeadlk s
    else if eq_int target.wait_id (running s).id
    then returned edeadlk s
    else if any_waits thread_lim s (running s).id
    then returned einval s
    else elim (index target.id) [ none ↦ fault | some i ↦ join_table s i ]
