-- ===== src/Threads/Scheduler/Fair.antt =====
-- How long a ready thread waits for the processor.
use cs.Base.{
  ℕ, suc, ◌+◌, ◌-◌, ◌*◌, ◌%◌, ◌≤◌, ◌<◌, ◌≡◌, ◌≢◌, ◌⊎◌, inl, inr, ap, subst, sym, ◌∙◌, none, some,
  ltb, ◌==◌, Bool-cases, arith,
}
use cs.Threads.State.{Sched, Errno, returned, switched, After, pause_timer, num_priority}
use cs.Threads.Scheduler.{dispatch, alarm}
use cs.Threads.Scheduler.Valid.{IsValid, alarm-IsValid}
use cs.Threads.Scheduler.Front.{
  front, front-none, front-get_next_at, Takes, IsUndisturbed, alarm-Chooses, alarm-IsUndisturbed,
}
use cs.Threads.Scheduler.Select.{dispatch_next_level}

-- The thread `t` is in front at the level that lies `d` levels behind the next one.
abbrev pub Awaits : ℕ → ℕ → Sched → Type 0
Awaits t d s = front s.priority_level ((s.current_priority + 1 + d) % num_priority) ≡ some t

-- A choice is the thread's, or its level comes nearer.
dispatch-Awaits :
    (s s' : Sched) (t d : ℕ)
    → s.current_priority < num_priority
    → s.run_at_priority ≡ 0
    → d < num_priority
    → Awaits t d s
    → dispatch s ≡ switched s'
    → (s'.running_thread ≡ t) ⊎ ((d' : ℕ) × (d' < d) × Awaits t d' s')
dispatch-Awaits s s' t d c z lt h e =
    let (k, lk, (level, got, empty)) = dispatch_next_level s s' c z e in
    let taken : Takes s.priority_level s'.current_priority s'.running_thread s'.priority_level =
      front-get_next_at s.priority_level s'.priority_level s'.current_priority s'.running_thread
        got in
    elim (Bool-cases (ltb d k)) [
      | inl p ↦
          let before : d < k = ground arith in
          let same : ((s.current_priority + 1) % num_priority + d) % num_priority
              ≡ (s.current_priority + 1 + d) % num_priority =
            omega arith in
          let none_there : front s.priority_level ((s.current_priority + 1 + d) % num_priority)
              ≡ none =
            subst (λ i. front s.priority_level i ≡ none) same
              (front-none s.priority_level _ (empty d before)) in
          (let both : some t ≡ none = sym h ∙ none_there in cc)
      | inr p ↦ (elim (Bool-cases (d == k)) [
        | inl q ↦
            let same : d ≡ k = ground arith in
            let there : s'.current_priority ≡ (s.current_priority + 1 + d) % num_priority =
              omega (arith, level, same) in
            let both : some s'.running_thread ≡ some t =
              sym taken.0 ∙ ap (front s.priority_level) there ∙ h in
            inl cc
        | inr q ↦
            let other : d ≢ k = ground arith in
            let behind_k : k < d = ground arith in
            let d' : ℕ = d - k - 1 in
            let there : (s'.current_priority + 1 + d') % num_priority
                ≡ (s.current_priority + 1 + d) % num_priority =
              omega (arith, level) in
            let apart : s'.current_priority ≢ (s.current_priority + 1 + d) % num_priority =
              λ x. omega (arith, x, level) in
            inr (d', omega arith, ap (front s'.priority_level) there ∙ taken.1 _ apart ∙ h)
      ])
    ]

-- A run of the program in which the alarm handler gives the processor away `n` times, and never to `t`.
-- Between two alarms other threads may be put into queues.
pub data Bypassed (t : ℕ) : ℕ → Sched → Sched → Type 0 where
  start : {s : Sched} → Bypassed t 0 s s
  worked :
      {n : ℕ} {s s' s'' : Sched}
      → IsValid s'
      → IsUndisturbed s s'
      → Bypassed t n s' s''
      → Bypassed t n s s''
  resumed :
      {n : ℕ} {s s' s'' : Sched} {e : Errno}
      → alarm s ≡ returned e s'
      → Bypassed t n s' s''
      → Bypassed t n s s''
  passed :
      {n : ℕ} {s s' s'' : Sched}
      → alarm s ≡ switched s'
      → s'.running_thread ≢ t
      → Bypassed t n s' s''
      → Bypassed t (suc n) s s''

Awaits-IsUndisturbed : (s s' : Sched) (t d : ℕ) → IsUndisturbed s s' → Awaits t d s → Awaits t d s'
Awaits-IsUndisturbed s s' t d u h =
    ap (λ c. front s'.priority_level ((c + 1 + d) % num_priority)) u.level
    ∙ u.fronts ((s.current_priority + 1 + d) % num_priority) t h

Bypassed-Awaits :
    (t d n : ℕ) (s s' : Sched)
    → d < num_priority
    → IsValid s
    → Awaits t d s
    → Bypassed t n s s'
    → n ≤ d
Bypassed-Awaits t d _ s s' lt v h start = omega arith
Bypassed-Awaits t d n s s' lt v h (worked {s' = x} v' u b) =
    Bypassed-Awaits t d n x s' lt v' (Awaits-IsUndisturbed s x t d u h) b
Bypassed-Awaits t d n s s' lt v h (resumed {s' = x} {e = e} p b) =
    Bypassed-Awaits t d n x s' lt (subst (After IsValid) p (alarm-IsValid s v))
      (Awaits-IsUndisturbed (pause_timer s) x t d (alarm-IsUndisturbed s x e p) h) b
Bypassed-Awaits t d (suc n) s s' lt v h (passed {s' = x} p ne b) =
    let (c, chosen, u) = alarm-Chooses s x p in
    elim (dispatch-Awaits c x t d (omega (arith, u.level, v.current)) (u.counter ∙ v.counter) lt
      (Awaits-IsUndisturbed (pause_timer s) c t d u h) chosen) [
        | inl r ↦ absurd (ne r)
        | inr (d', l, h') ↦
            let rest : n ≤ d' =
              Bypassed-Awaits t d' n x s' (omega arith)
                (subst (After IsValid) p (alarm-IsValid s v)) h' b in
            omega arith
      ]

-- In a valid state, a thread that is in front of the queue of its level is passed over fewer than five
-- times: the processor is given to it at the latest at the fifth switch, whatever is put into the queues
-- meanwhile.
pub Bypassed-bound :
    (t i n : ℕ) (s s' : Sched)
    → i < num_priority
    → IsValid s
    → front s.priority_level i ≡ some t
    → Bypassed t n s s'
    → n < num_priority
Bypassed-bound t i n s s' lt v h b =
    let d : ℕ = (i + 2 * num_priority - s.current_priority - 1) % num_priority in
    let there : (s.current_priority + 1 + d) % num_priority ≡ i = omega (arith, v.current) in
    let most : n ≤ d =
      Bypassed-Awaits t d n s s' (omega arith) v (ap (front s.priority_level) there ∙ h) b in
    omega arith
