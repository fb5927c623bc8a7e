-- ===== src/Threads/Mutex/Destroy.antt =====
-- Initialising and destroying a mutex: what of it works, and what does not.
use cs.Base.{ℕ, ◌≡◌, refl, List, [], ◌∷◌, Option, none, some, true, arith}
use cs.Threads.State.{Sched, returned, success, ebusy, set_mutex, pause_timer}
use cs.Threads.Mutex.{
  registered, my_pthread_mutex_init, release_all, clean_up, my_pthread_mutex_destroy,
}

release_all-list : (ws : List ℕ) (s : Sched) → (release_all ws s).mutex_list ≡ s.mutex_list
unfolding release_all
release_all-list [] s = refl
release_all-list (w ∷ ws) s = release_all-list ws _

clean_up-list :
    (m : ℕ) (w : Option (List ℕ)) (s s' : Sched)
    → clean_up m w s ≡ returned success s'
    → s'.mutex_list ≡ s.mutex_list
unfolding clean_up
clean_up-list m none s s' e = cc
clean_up-list m (some ws) s s' e = ground (arith, release_all-list ws s)

-- Once destroy has succeeded on a mutex, initialising it, with memory for its queue, fails with
-- EBUSY and only replaces the queue.
pub init-destroy :
    (m : ℕ) (s s' : Sched)
    → my_pthread_mutex_destroy m s ≡ returned success s'
    → my_pthread_mutex_init true m s'
      ≡ returned ebusy (set_mutex s' m (record (s'.mutexes m) { waiting = some [] }))
unfolding my_pthread_mutex_destroy my_pthread_mutex_init
init-destroy m s s' e = ground (arith, clean_up-list m (s.mutexes m).waiting (pause_timer s) s')

-- Initialising a mutex that is active fails with EBUSY, yet has dropped the queue of the threads
-- that wait for it: whoever has the mutex hands it to nobody.
pub init_drops_waiting :
    (m : ℕ) (s : Sched)
    → registered s.mutex_list m ≡ true
    → (s' : Sched) × (my_pthread_mutex_init true m s ≡ returned ebusy s')
      × (s'.mutexes m ≡ record { waiting = some []; user = (s.mutexes m).user })
unfolding my_pthread_mutex_init
init_drops_waiting m s r =
    (set_mutex s m (record (s.mutexes m) { waiting = some [] }), ground arith, ground arith)
