-- ===== src/Threads/Scheduler/Select.antt =====
-- The search of the alarm handler for the next thread: when it ends, and what it finds.
use cs.Base.{
  ℕ, zero, suc, ◌+◌, ◌-◌, ◌%◌, ◌<◌, ◌≡◌, refl, ◌≢◌, ◌↔◌, inl, inr, List, none, some, arith, ap, ◌∙◌,
  sym, Option-cases,
}
use cs.Threads.State.{Sched, spins, switched, get_next_at, num_priority}
use cs.Threads.Scheduler.{select, dispatch, advance_priority}
use cs.Threads.Scheduler.Conserve.{advance-levels}

-- No thread is ready at any level.
abbrev pub IsIdle : List (List ℕ) → Type 0
IsIdle qs = (i : ℕ) → i < num_priority → get_next_at qs i ≡ none

-- With nothing ready the search goes on for ever: no number of rounds ends it.
pub select_idle :
    (fuel level : ℕ) (qs : List (List ℕ))
    → level < num_priority
    → IsIdle qs
    → select fuel level qs ≡ none
unfolding select
select_idle zero level qs h idle = refl
select_idle (suc fuel) level qs h idle =
    rw (idle level h, select) (select_idle fuel ((level + 1) % num_priority) qs (omega arith) idle)

-- The search reaches the level that is `d` levels on within `d + 1` rounds.
select_reaches :
    (fuel level d : ℕ) (qs : List (List ℕ))
    → level < num_priority
    → d < fuel
    → get_next_at qs ((level + d) % num_priority) ≢ none
    → select fuel level qs ≢ none
unfolding select
select_reaches zero level d qs h lt ready = elim lt [ ]
select_reaches (suc fuel) level zero qs h lt ready =
    let e : (level + 0) % num_priority ≡ level = omega arith in
    let r : get_next_at qs level ≢ none = λ p. ready (ap (get_next_at qs) e ∙ p) in ground arith
select_reaches (suc fuel) level (suc d) qs h lt ready =
    let e : (level + suc d) % num_priority ≡ ((level + 1) % num_priority + d) % num_priority =
      omega arith in
    ground (
      arith,
      select_reaches fuel ((level + 1) % num_priority) d qs (omega arith) (omega arith)
          (λ p. ready (ap (get_next_at qs) e ∙ p)),
    )

-- The levels are searched once round from the given one.
pub select_total :
    (level i : ℕ) (qs : List (List ℕ))
    → level < num_priority
    → i < num_priority
    → get_next_at qs i ≢ none
    → select num_priority level qs ≢ none
select_total level i qs h lt ready =
    let e : (level + (i + 5 - level) % 5) % num_priority ≡ i = omega arith in
    select_reaches num_priority level ((i + 5 - level) % 5) qs h (omega arith)
      (λ p. ready (ap (get_next_at qs) (sym e) ∙ p))

pub select-none :
    (level : ℕ) (qs : List (List ℕ))
    → level < num_priority
    → select num_priority level qs ≡ none
    → IsIdle qs
select-none level qs h e i lt = elim (Option-cases (get_next_at qs i)) [
  | inl p ↦ p
  | inr (x, p) ↦ absurd (select_total level i qs h lt (λ q. cc) e)
]

advance-lt :
    (s : Sched)
    → s.current_priority < num_priority
    → (advance_priority s).current_priority < num_priority
unfolding advance_priority
advance-lt s h = ground arith

-- From a current level in range, the handler's search for a thread fails to end exactly when no
-- thread is ready at any level.
pub dispatch-spins_iff :
    (s : Sched) → s.current_priority < num_priority → (dispatch s ≡ spins) ↔ IsIdle s.priority_level
unfolding dispatch
dispatch-spins_iff s h = (
  λ e. rw (← advance-levels s) (select-none level qs lt (ground arith)),
  λ idle. rw (select_idle num_priority level qs lt (rw (advance-levels s) idle), dispatch),
)
  where
    level : ℕ
    level = (advance_priority s).current_priority

    qs : List (List ℕ)
    qs = (advance_priority s).priority_level

    lt : level < num_priority
    lt = advance-lt s h

-- The level found lies `d` levels after the first one searched, and those between are empty.
abbrev pub FoundAfter : ℕ → List (List ℕ) → ℕ → ℕ → List (List ℕ) → ℕ → Type 0
FoundAfter level qs t l rest d =
    (l ≡ (level + d) % num_priority)
    × (get_next_at qs l ≡ some (t, rest))
    × ((k : ℕ) → k < d → get_next_at qs ((level + k) % num_priority) ≡ none)

select_later :
    (level t l d : ℕ) (qs rest : List (List ℕ))
    → level < num_priority
    → get_next_at qs level ≡ none
    → FoundAfter ((level + 1) % num_priority) qs t l rest d
    → FoundAfter level qs t l rest (suc d)
select_later level t l d qs rest h e f = (omega (arith, f.0), f.1, between)
  where
    between : (k : ℕ) → k < suc d → get_next_at qs ((level + k) % num_priority) ≡ none
    between zero lt =
        let p : (level + 0) % num_priority ≡ level = omega arith in ap (get_next_at qs) p ∙ e
    between (suc k) lt =
        let p : (level + suc k) % num_priority ≡ ((level + 1) % num_priority + k) % num_priority =
          omega arith in
        ap (get_next_at qs) p ∙ f.2 k (omega arith)

select_first :
    (fuel level t l : ℕ) (qs rest : List (List ℕ))
    → level < num_priority
    → select fuel level qs ≡ some (t, l, rest)
    → (d : ℕ) × (d < fuel) × FoundAfter level qs t l rest d
unfolding select
select_first zero level t l qs rest h e = cc
select_first (suc fuel) level t l qs rest h e = elim (Option-cases (get_next_at qs level)) [
  | inl p ↦
      let (d, lt, f) =
        select_first fuel ((level + 1) % num_priority) t l qs rest (omega arith) (ground arith) in
      (suc d, omega arith, select_later level t l d qs rest h p f)
  | inr (x, p) ↦ (0, omega arith, (ground arith, ground arith, λ k lt. absurd (omega arith)))
]

-- In a state with a current level in range and a counter of 0 for the threads run there, a switch
-- goes to the oldest thread of the first level behind the current one that has any: the current
-- level itself comes last.
pub dispatch_next_level :
    (s s' : Sched)
    → s.current_priority < num_priority
    → s.run_at_priority ≡ 0
    → dispatch s ≡ switched s'
    → (d : ℕ) × (d < num_priority)
      × FoundAfter
          ((s.current_priority + 1) % num_priority)
          s.priority_level
          s'.running_thread
          s'.current_priority
          s'.priority_level
          d
unfolding dispatch
dispatch_next_level s s' h c e =
    select_first num_priority ((s.current_priority + 1) % num_priority) s'.running_thread
      s'.current_priority s.priority_level s'.priority_level (omega arith)
      (unfold advance_priority in (ground arith))
