-- ===== src/Threads/Scheduler/Front.antt =====
-- The threads in front of the queues, and what the alarm handler does to them before it chooses the next
-- thread.
use cs.Base.{
  ℕ, zero, suc, ◌≡◌, refl, ◌≢◌, inl, inr, ap, subst, sym, ◌∙◌, List, [], ◌∷◌, Option, none, some,
  ltb, Bool-cases, Option-cases, arith,
}
use cs.Threads.State.{
  Status, active, yield, wait_thread, wait_mutex, thread_exit, Sched, Errno, returned, switched,
  running, pause_timer, set_thread, enqueue_at, get_next_at, pop_front, behind,
}
use cs.Threads.Scheduler.{
  index, dispatch, preempt, bury, handle, alarm, wake, wake_joiner, make_ready, demote,
}
use cs.Threads.Scheduler.Valid.{dispatch-ne-returned}

abbrev pub oldest : List ℕ → Option ℕ
oldest [] = none
oldest (t ∷ q) = some t

-- The oldest thread at a level.
abbrev pub front : List (List ℕ) → ℕ → Option ℕ
front [] i = none
front (q ∷ qs) zero = oldest q
front (q ∷ qs) (suc i) = front qs i

front-enqueue_at :
    (qs : List (List ℕ)) (l u i t : ℕ) → front qs i ≡ some t → front (enqueue_at qs l u) i ≡ some t
unfolding enqueue_at
front-enqueue_at [] l u i t e = e
front-enqueue_at ([] ∷ qs) zero u zero t e = cc
front-enqueue_at ((x ∷ q) ∷ qs) zero u zero t e = e
front-enqueue_at (q ∷ qs) zero u (suc i) t e = e
front-enqueue_at (q ∷ qs) (suc l) u zero t e = e
front-enqueue_at (q ∷ qs) (suc l) u (suc i) t e = front-enqueue_at qs l u i t e

pub front-none : (qs : List (List ℕ)) (i : ℕ) → get_next_at qs i ≡ none → front qs i ≡ none
unfolding get_next_at pop_front behind
front-none [] i e = refl
front-none ([] ∷ qs) zero e = refl
front-none ((x ∷ q) ∷ qs) zero e = cc
front-none (q ∷ qs) (suc i) e = elim (Option-cases (get_next_at qs i)) [
  | inl p ↦ front-none qs i p
  | inr (x, p) ↦ absurd (ground arith)
]

-- The thread that is taken was in front, and the other levels keep theirs.
abbrev pub Takes : List (List ℕ) → ℕ → ℕ → List (List ℕ) → Type 0
Takes qs i t rest = (front qs i ≡ some t) × ((j : ℕ) → i ≢ j → front rest j ≡ front qs j)

Takes-first : (x : ℕ) (q : List ℕ) (qs : List (List ℕ)) → Takes ((x ∷ q) ∷ qs) 0 x (q ∷ qs)
Takes-first x q qs = (refl, others)
  where
    others : (j : ℕ) → 0 ≢ j → front (q ∷ qs) j ≡ front ((x ∷ q) ∷ qs) j
    others zero ne = absurd (ne refl)
    others (suc j) ne = refl

Takes-behind :
    (q : List ℕ) (qs rest : List (List ℕ)) (i t : ℕ)
    → Takes qs i t rest
    → Takes (q ∷ qs) (suc i) t (q ∷ rest)
Takes-behind q qs rest i t h = (h.0, others)
  where
    others : (j : ℕ) → suc i ≢ j → front (q ∷ rest) j ≡ front (q ∷ qs) j
    others zero ne = refl
    others (suc j) ne = h.1 j (λ e. ne (ap suc e))

pub front-get_next_at :
    (qs rest : List (List ℕ)) (i t : ℕ) → get_next_at qs i ≡ some (t, rest) → Takes qs i t rest
unfolding get_next_at pop_front behind
front-get_next_at [] rest i t e = cc
front-get_next_at ([] ∷ qs) rest zero t e = cc
front-get_next_at ((x ∷ q) ∷ qs) rest zero t e =
    let same : x ≡ t = cc in
    let left : q ∷ qs ≡ rest = cc in
    subst (λ u. Takes ((x ∷ q) ∷ qs) 0 u rest) same
      (subst (Takes ((x ∷ q) ∷ qs) 0 x) left (Takes-first x q qs))
front-get_next_at (q ∷ qs) rest (suc i) t e = elim (Option-cases (get_next_at qs i)) [
  | inl p ↦ absurd (ground arith)
  | inr (r, p) ↦
      let whole : behind q (some r) ≡ some (t, rest) = ap (behind q) (sym p) ∙ e in
      let same : r.0 ≡ t = ground arith in
      let left : q ∷ r.1 ≡ rest = ground arith in
      subst (λ u. Takes (q ∷ qs) (suc i) u rest) same
        (subst (Takes (q ∷ qs) (suc i) r.0) left
          (Takes-behind q qs r.1 i r.0 (front-get_next_at qs r.1 i r.0 p)))
]

-- The queues `qs'` have every thread in front that `qs` have in front.
abbrev pub KeepsFronts : List (List ℕ) → List (List ℕ) → Type 0
KeepsFronts qs qs' = (i t : ℕ) → front qs i ≡ some t → front qs' i ≡ some t

-- Nothing of the state but what the search for the next thread does not see, and threads that were put
-- behind others.
pub record IsUndisturbed (s s' : Sched) : Type 0 where
  pub level : s'.current_priority ≡ s.current_priority
  pub counter : s'.run_at_priority ≡ s.run_at_priority
  pub fronts : KeepsFronts s.priority_level s'.priority_level

IsUndisturbed-refl : (s : Sched) → IsUndisturbed s s
IsUndisturbed-refl s = record { level = refl; counter = refl; fronts = λ i t e. e }

make_ready-IsUndisturbed :
    (s t : Sched) (p : ℕ) → IsUndisturbed s t → IsUndisturbed s (make_ready t p)
make_ready-IsUndisturbed s t p h = record {
  level = h.level;
  counter = h.counter;
  fronts = λ i u e. front-enqueue_at t.priority_level (t.threads p).priority p i u (h.fronts i u e);
}

wake-IsUndisturbed : (s : Sched) (w : Option ℕ) → IsUndisturbed s (wake s w)
unfolding wake
wake-IsUndisturbed s none = IsUndisturbed-refl s
wake-IsUndisturbed s (some w) =
    make_ready-IsUndisturbed s (set_thread s w (record (s.threads w) { status = active })) w
      (record { level = refl; counter = refl; fronts = λ i t e. e })

-- A switch is the choice of the next thread in a state that differs from the one before only so.
abbrev pub Chooses : Sched → Sched → Type 0
Chooses s s' = (x : Sched) × (dispatch x ≡ switched s') × IsUndisturbed s x

preempt-Chooses : (s s' : Sched) → preempt s ≡ switched s' → Chooses s s'
unfolding preempt
preempt-Chooses s s' e = elim (Bool-cases (ltb (running s).intervals_run s.current_priority)) [
  | inl p ↦ absurd (ground arith)
  | inr p ↦ (
    make_ready (demote s) s.running_thread,
    ground arith,
    make_ready-IsUndisturbed s (demote s) s.running_thread
        (record { level = refl; counter = refl; fronts = λ i t e. e }),
  )
]

bury-Chooses : (s s' : Sched) → bury s ≡ switched s' → Chooses s s'
unfolding bury wake_joiner
bury-Chooses s s' e = elim (Option-cases (index (running s).id)) [
  | inl p ↦ absurd (ground arith)
  | inr (i, p) ↦ (wake_joiner s i, ground arith, wake-IsUndisturbed s (s.waiting i))
]

handle-Chooses : (st : Status) (s s' : Sched) → handle st s ≡ switched s' → Chooses s s'
unfolding handle
handle-Chooses active s s' e = preempt-Chooses s s' e
handle-Chooses yield s s' e = (
  make_ready s s.running_thread,
  e,
  make_ready-IsUndisturbed s s s.running_thread (IsUndisturbed-refl s),
)
handle-Chooses wait_thread s s' e = (s, e, IsUndisturbed-refl s)
handle-Chooses wait_mutex s s' e = (s, e, IsUndisturbed-refl s)
handle-Chooses thread_exit s s' e = bury-Chooses s s' e

pub alarm-Chooses : (s s' : Sched) → alarm s ≡ switched s' → Chooses (pause_timer s) s'
unfolding alarm
alarm-Chooses s s' e = handle-Chooses (running s).status (pause_timer s) s' e

preempt-IsUndisturbed : (s s' : Sched) (e : Errno) → preempt s ≡ returned e s' → IsUndisturbed s s'
unfolding preempt
preempt-IsUndisturbed s s' e h =
    elim (Bool-cases (ltb (running s).intervals_run s.current_priority)) [
      | inl p ↦
          let same : s'.priority_level ≡ s.priority_level = ground arith in
          record {
            level = ground arith;
            counter = ground arith;
            fronts = λ i t f. ap (λ qs. front qs i) same ∙ f;
          }
      | inr p ↦
          absurd (dispatch-ne-returned (make_ready (demote s) s.running_thread) s' e (ground arith))
    ]

bury-ne-returned : (s s' : Sched) (e : Errno) → bury s ≢ returned e s'
unfolding bury
bury-ne-returned s s' e h = elim (Option-cases (index (running s).id)) [
  | inl p ↦ ground arith
  | inr (i, p) ↦ dispatch-ne-returned (wake_joiner s i) s' e (ground arith)
]

handle-IsUndisturbed :
    (st : Status) (s s' : Sched) (e : Errno) → handle st s ≡ returned e s' → IsUndisturbed s s'
unfolding handle
handle-IsUndisturbed active s s' e h = preempt-IsUndisturbed s s' e h
handle-IsUndisturbed yield s s' e h =
    absurd (dispatch-ne-returned (make_ready s s.running_thread) s' e h)
handle-IsUndisturbed wait_thread s s' e h = absurd (dispatch-ne-returned s s' e h)
handle-IsUndisturbed wait_mutex s s' e h = absurd (dispatch-ne-returned s s' e h)
handle-IsUndisturbed thread_exit s s' e h = absurd (bury-ne-returned s s' e h)

pub alarm-IsUndisturbed :
    (s s' : Sched) (e : Errno) → alarm s ≡ returned e s' → IsUndisturbed (pause_timer s) s'
unfolding alarm
alarm-IsUndisturbed s s' e h = handle-IsUndisturbed (running s).status (pause_timer s) s' e h
