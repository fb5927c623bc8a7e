-- ===== src/Paging/Protect.antt =====
-- The part of scheduler_alarm_handler of asst2/my_pthread.c that closes the frames of the thread that
-- leaves the processor and opens those of the thread found at the current level, and the loop over the
-- other levels, which is that of asst1 (`select`).
use cs.Base.{
  ℕ, zero, suc, ◌≡◌, List, [], ◌∷◌, Option, none, some, Bool, true, false, ◌==◌, ◌||◌,
  if◌then◌else◌, get_elem?, update,
}
use cs.Paging.{Page, num_pages, ◌>>=◌}
use cs.Threads.State.{Sched, get_next_at, num_priority}
use cs.Threads.Scheduler.{select}

-- mprotect of the frames of the pages on the list from `ptr` on. A list that forms a circle never ends.
unfoldable pub protect : Bool → ℕ → List Page → Option ℕ → (ℕ → Bool) → Option (ℕ → Bool)
protect allow fuel pages none is_open = some is_open
protect allow zero pages (some i) is_open = none
protect allow (suc fuel) pages (some i) is_open =
    get_elem? pages i >>= λ p. protect allow fuel pages p.next (update is_open p.page allow)

-- `next` is the list of the next thread, or `none` where there is no next thread.
unfoldable pub switch_access :
    List Page → Option ℕ → Option (Option ℕ) → (ℕ → Bool) → Option (ℕ → Bool)
switch_access pages prev none is_open = protect false num_pages pages prev is_open
switch_access pages prev (some next) is_open =
    protect false num_pages pages prev is_open >>= λ o. protect true num_pages pages next o

-- The list of the thread that get_next gives for the current level.
abbrev pub list_of : (ℕ → Option ℕ) → Option (ℕ × List (List ℕ)) → Option (Option ℕ)
list_of page_list none = none
list_of page_list (some r) = some (page_list r.0)

-- The frames that can be accessed in front of the loop that looks for a thread at other levels, once the
-- counters have been advanced to `s`.
unfoldable pub switch_frames : List Page → (ℕ → Option ℕ) → Sched → (ℕ → Bool) → Option (ℕ → Bool)
switch_frames pages page_list s is_open =
    switch_access pages (page_list s.running_thread)
      (list_of page_list (get_next_at s.priority_level s.current_priority)) is_open

-- The switch, from the counters to the loop that looks for a thread: the thread, its level and what is left
-- of the queues, or `none` where the loop does not end, with the frames that can be accessed.
unfoldable pub switch_thread :
    List Page
    → (ℕ → Option ℕ)
    → Sched
    → (ℕ → Bool)
    → Option (Option (ℕ × ℕ × List (List ℕ)) × (ℕ → Bool))
unfolding switch_frames
switch_thread pages page_list s is_open = switch_frames pages page_list s is_open >>= λ o.
    some (select num_priority s.current_priority s.priority_level, o)

-- The frames of a list of pages that ends.
unfoldable pub frames_of : ℕ → List Page → Option ℕ → Option (List ℕ)
frames_of fuel pages none = some []
frames_of zero pages (some i) = none
frames_of (suc fuel) pages (some i) =
    get_elem? pages i >>= λ p. frames_of fuel pages p.next >>= λ fs. some (p.page ∷ fs)

abbrev pub mem : ℕ → List ℕ → Bool
mem f [] = false
mem f (g ∷ gs) = g == f || mem f gs

-- The frames `fs` are set to `allow`, and no others.
abbrev pub access : Bool → List ℕ → (ℕ → Bool) → ℕ → Bool
access allow fs is_open f = if mem f fs then allow else is_open f

-- The frames that can be accessed after a switch, from the frames of the thread that leaves and of the
-- thread that was found at the current level, if there was one.
abbrev accessible : (ℕ → List ℕ) → ℕ → Option (ℕ × List (List ℕ)) → (ℕ → Bool) → ℕ → Bool
accessible frames prev none is_open f = access false (frames prev) is_open f
accessible frames prev (some r) is_open f =
    access true (frames r.0) (access false (frames prev) is_open) f

-- From the thread found at the current level, `next`, if there was one: that thread is the one that runs
-- next, and has its frames, or no frame is opened, whichever thread is found.
abbrev pub IsSwitch :
    (ℕ → List ℕ)
    → Sched
    → (ℕ → Bool)
    → Option (ℕ × List (List ℕ))
    → Option (ℕ × ℕ × List (List ℕ))
    → (ℕ → Bool)
    → Type 0
IsSwitch frames s is_open none found o =
    (f : ℕ) → o f ≡ access false (frames s.running_thread) is_open f
IsSwitch frames s is_open (some (t, qs)) found o =
    (found ≡ some (t, s.current_priority, qs))
    × ((f : ℕ) → o f ≡ access true (frames t) (access false (frames s.running_thread) is_open) f)
