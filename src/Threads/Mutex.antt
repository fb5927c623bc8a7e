-- ===== src/Threads/Mutex.antt =====
-- The mutex functions of asst1/my_pthread.c. A mutex is known by its address, 0 for NULL.
pub mod Handoff
pub mod Destroy
pub mod Tests
use cs.Base.{
  ℕ, zero, suc, ◌++◌, List, [], ◌∷◌, Option, none, some, Bool, true, false, ◌==◌, if◌then◌else◌,
  update,
}
use cs.Threads.State.{
  Status, active, wait_mutex, Thread, Mutex, Sched, Outcome, returned, fault, Errno, success, ebusy,
  edeadlk, eperm, einval, enomem, set_thread, set_mutex, running, pause_timer, resume_timer,
}
use cs.Threads.Scheduler.{alarm, make_ready}

-- `p == q` for pointers that may be NULL.
abbrev pub is_at : Option ℕ → ℕ → Bool
is_at none p = false
is_at (some q) p = q == p

-- Whether the mutex is in the list of active mutexes.
pub registered : List (Option ℕ) → ℕ → Bool
registered [] m = false
registered (x ∷ xs) m = if is_at x m then true else registered xs m

-- Writes the mutex into the first free place of the list, if there is one.
pub register_mutex : List (Option ℕ) → ℕ → List (Option ℕ)
register_mutex [] m = []
register_mutex (none ∷ xs) m = some m ∷ xs
register_mutex (some x ∷ xs) m = some x ∷ register_mutex xs m

-- `memory` is whether make_queue gets memory. The test `mutexattr < 0` holds of no pointer.
pub my_pthread_mutex_init : Bool → ℕ → Sched → Outcome
my_pthread_mutex_init memory m s =
    if memory
    then (let s1 = set_mutex s m (record (s.mutexes m) { waiting = some [] }) in
        if registered s.mutex_list m
        then returned ebusy s1
        else returned success (record (set_mutex s m (record { waiting = some []; user = none })) {
          mutex_list = register_mutex s.mutex_list m;
        }))
    else returned enomem (set_mutex s m (record (s.mutexes m) { waiting = none }))

-- `mutex->user = running_thread` and what follows, up to the return of 0. A thread that had to wait goes on
-- here when it runs again, whoever has the mutex then.
pub claim : ℕ → Sched → Outcome
claim m s =
    returned success
      (resume_timer (set_mutex s m (record (s.mutexes m) { user = some s.running_thread })))

-- The state that a blocking lock hands to the handler.
pub wait_for : ℕ → List ℕ → Sched → Sched
wait_for m ws s =
    let s1 =
      set_mutex s m (record (s.mutexes m) { waiting = some (ws ++ s.running_thread ∷ []) }) in
    resume_timer (set_thread s1 s.running_thread (record (running s) { status = wait_mutex }))

-- A lock of a mutex that another thread has.
pub contend : ℕ → Sched → Outcome
unfolding wait_for
contend m s = elim (s.mutexes m).waiting [ none ↦ fault | some ws ↦ alarm (wait_for m ws s) ]

-- The branches on the user of the mutex.
pub lock_by : Option ℕ → ℕ → Sched → Outcome
unfolding claim contend
lock_by none m s = claim m s
lock_by (some u) m s =
    if u == s.running_thread then returned edeadlk (resume_timer s) else contend m s

-- The call up to its return or, where another thread has the mutex, up to `raise`: the thread leaves the
-- processor there, and `claim` is the rest of its call.
pub my_pthread_mutex_lock : ℕ → Sched → Outcome
unfolding lock_by
my_pthread_mutex_lock m s =
    let s1 = pause_timer s in
    if m == 0 then returned einval (resume_timer s1) else lock_by (s.mutexes m).user m s1

-- Gives the mutex to the next in line, if there is one, and makes that thread ready.
pub hand_over : ℕ → List ℕ → Sched → Sched
hand_over m [] s = set_mutex s m (record { waiting = some []; user = none })
hand_over m (w ∷ ws) s =
    let s1 = set_mutex s m (record { waiting = some ws; user = some w }) in
    make_ready (set_thread s1 w (record (s.threads w) { status = active })) w

pub my_pthread_mutex_unlock : ℕ → Sched → Outcome
unfolding hand_over
my_pthread_mutex_unlock m s =
    let s1 = pause_timer s in
    if is_at (s.mutexes m).user s.running_thread
    then (elim (s.mutexes m).waiting [
      | none ↦ fault
      | some ws ↦ returned success (resume_timer (hand_over m ws s1))
    ])
    else returned eperm (resume_timer s1)

-- Makes every waiting thread ready.
pub release_all : List ℕ → Sched → Sched
release_all [] s = s
release_all (w ∷ ws) s =
    release_all ws (make_ready (set_thread s w (record (s.threads w) { status = active })) w)

-- The clean-up of a mutex that nobody has. The queue is freed and its pointer kept.
pub clean_up : ℕ → Option (List ℕ) → Sched → Outcome
unfolding release_all
clean_up m none s = fault
clean_up m (some ws) s =
    returned success
      (resume_timer (set_mutex (release_all ws s) m (record { waiting = none; user = none })))

-- The statement `mutex_list[i] == NULL` of the source compares and writes nothing.
pub my_pthread_mutex_destroy : ℕ → Sched → Outcome
unfolding clean_up
my_pthread_mutex_destroy m s =
    let s1 = pause_timer s in
    if registered s.mutex_list m
    then (elim (s.mutexes m).user [
      | none ↦ clean_up m (s.mutexes m).waiting s1
      | some u ↦ returned ebusy s1
    ])
    else returned einval s1
