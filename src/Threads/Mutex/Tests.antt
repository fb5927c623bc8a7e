-- ===== src/Threads/Mutex/Tests.antt =====
-- The properties of mutexes at a scheduler with two threads.
use cs.Base.{◌≡◌, refl, [], some, true}
use cs.Threads.State.{yield, set_thread, Sched, returned, success, ebusy, set_mutex}
use cs.Threads.Scheduler.{alarm}
use cs.Threads.Mutex.{
  my_pthread_mutex_init, my_pthread_mutex_lock, my_pthread_mutex_unlock, my_pthread_mutex_destroy,
  clean_up, release_all, registered,
}
use cs.Threads.Mutex.Handoff.{left_by}
use cs.Threads.Mutex.Destroy.{init-destroy}
use cs.Threads.Fixture.{thread, two, with_mutex, left_in}

-- Thread 2 has the mutex.
abbrev taken : Sched
taken = with_mutex (record { waiting = some []; user = some 2 })

-- Thread 1 waits, and thread 2 unlocks.
abbrev waited : Sched
waited = left_in (my_pthread_mutex_lock 7 taken)

-- Thread 2 then yields.
abbrev yields : Sched
yields =
    let s = left_by (my_pthread_mutex_unlock 7 waited) waited in set_thread s 2 (thread yield 2)

-- Thread 1 goes on.
abbrev resumed : Sched
resumed = left_in (alarm yields)

destroyed :
    my_pthread_mutex_destroy 7 two ≡ returned success (left_in (my_pthread_mutex_destroy 7 two))
unfolding my_pthread_mutex_destroy clean_up release_all registered
destroyed = refl

init-destroy_example :
    my_pthread_mutex_init true 7 (left_in (my_pthread_mutex_destroy 7 two))
    ≡ returned ebusy (
        set_mutex
          (left_in (my_pthread_mutex_destroy 7 two))
          7
          (record ((left_in (my_pthread_mutex_destroy 7 two)).mutexes 7) { waiting = some [] }))
init-destroy_example = init-destroy 7 two (left_in (my_pthread_mutex_destroy 7 two)) destroyed
