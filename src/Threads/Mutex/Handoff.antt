-- ===== src/Threads/Mutex/Handoff.antt =====
-- Who has a mutex after a call of lock or unlock.
use cs.Base.{ℕ, ◌≡◌, refl, ◌≢◌, ◌++◌, List, [], ◌∷◌, some, arith}
use cs.Threads.State.{
  active, wait_mutex, Sched, Outcome, returned, switched, spins, fault, success, running,
  pause_timer, resume_timer, enqueue_at,
}
use cs.Threads.Scheduler.{alarm}
use cs.Threads.Mutex.{
  wait_for, contend, lock_by, my_pthread_mutex_lock, hand_over, my_pthread_mutex_unlock,
}

-- If another thread has the mutex, which is not NULL, lock puts the caller behind all who wait for
-- it, leaves the mutex with its user, marks the caller as waiting, makes nobody ready, and calls
-- the scheduler.
pub lock_contended :
    (m u : ℕ) (ws : List ℕ) (s : Sched)
    → m ≢ 0
    → s.mutexes m ≡ record { waiting = some ws; user = some u }
    → u ≢ s.running_thread
    → (s' : Sched) × (my_pthread_mutex_lock m s ≡ alarm s')
      × (s'.mutexes m ≡ record { waiting = some (ws ++ s.running_thread ∷ []); user = some u })
      × ((running s').status ≡ wait_mutex)
      × (s'.priority_level ≡ s.priority_level)
unfolding my_pthread_mutex_lock lock_by contend wait_for
lock_contended m u ws s z e n =
    (wait_for m ws (pause_timer s), ground arith, ground arith, ground arith, refl)

-- unlock by the user of a mutex with a waiting thread: the thread that has waited longest has the
-- mutex, the others keep their order, that thread alone becomes active and ready, behind all others
-- of its level, and the caller goes on.
pub unlock_hands_over :
    (m w : ℕ) (ws : List ℕ) (s : Sched)
    → s.mutexes m ≡ record { waiting = some (w ∷ ws); user = some s.running_thread }
    → (s' : Sched) × (my_pthread_mutex_unlock m s ≡ returned success s')
      × (s'.mutexes m ≡ record { waiting = some ws; user = some w })
      × ((s'.threads w).status ≡ active)
      × ((p : ℕ) → p ≢ w → s'.threads p ≡ s.threads p)
      × (s'.priority_level ≡ enqueue_at s.priority_level (s.threads w).priority w)
      × (s'.running_thread ≡ s.running_thread)
unfolding my_pthread_mutex_unlock hand_over
unlock_hands_over m w ws s e = (
  resume_timer (hand_over m (w ∷ ws) (pause_timer s)),
  ground arith,
  ground arith,
  ground arith,
  λ p n. ground arith,
  ground arith,
  refl,
)

-- The state that a call leaves, `s` where it leaves none.
abbrev pub left_by : Outcome → Sched → Sched
left_by (returned e s') s = s'
left_by (switched s') s = s'
left_by spins s = s
left_by fault s = s
