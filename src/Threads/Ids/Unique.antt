-- ===== src/Threads/Ids/Unique.antt =====
-- Thread ids are unique, and run out at THREAD_LIM.
use cs.Base.{
  refl, ℕ, ◌+◌, ◌≤◌, ◌<◌, ◌≡◌, ◌≢◌, inl, inr, List, [], ◌∷◌, ◌++◌, ℤ, pos, negsuc, minus_one, ltb,
  arith, Bool-cases, true, ltb→lt, lt→ltb, ◌↔◌,
}
use cs.Threads.State.{Ids, thread_lim}
use cs.Threads.Ids.{issue, take_id, get_id, free_id}

abbrev pub NotIn : ℕ → List ℕ → Type 0
NotIn n [] = Unit
NotIn n (m ∷ ms) = (n ≢ m) × NotIn n ms

abbrev pub AllDistinct : List ℕ → Type 0
AllDistinct [] = Unit
AllDistinct (n ∷ ns) = NotIn n ns × AllDistinct ns

abbrev pub AllBelow : ℕ → List ℕ → Type 0
AllBelow k [] = Unit
AllBelow k (n ∷ ns) = (n < k) × AllBelow k ns

-- No recycled id is live, or stands twice in the list; all ids are below the counter and the limit.
pub record IsSound (live : List ℕ) (s : Ids) : Type 0 where
  pub distinct : AllDistinct (s.tid_list ++ live)
  pub issued : AllBelow s.thread_count (s.tid_list ++ live)
  pub limited : AllBelow thread_lim (s.tid_list ++ live)

AllBelow-mono : (k l : ℕ) (ns : List ℕ) → k ≤ l → AllBelow k ns → AllBelow l ns
AllBelow-mono k l [] h b = tt
AllBelow-mono k l (n ∷ ns) h b = (omega arith, AllBelow-mono k l ns h b.1)

NotIn-AllBelow : (k : ℕ) (ns : List ℕ) → AllBelow k ns → NotIn k ns
NotIn-AllBelow k [] b = tt
NotIn-AllBelow k (n ∷ ns) b = (omega arith, NotIn-AllBelow k ns b.1)

AllBelow-middle :
    (k n : ℕ) (xs ys : List ℕ) → n < k → AllBelow k (xs ++ ys) → AllBelow k (xs ++ n ∷ ys)
AllBelow-middle k n [] ys h b = (h, b)
AllBelow-middle k n (x ∷ xs) ys h b = (b.0, AllBelow-middle k n xs ys h b.1)

NotIn-middle : (k n : ℕ) (xs ys : List ℕ) → k ≢ n → NotIn k (xs ++ ys) → NotIn k (xs ++ n ∷ ys)
NotIn-middle k n [] ys h b = (h, b)
NotIn-middle k n (x ∷ xs) ys h b = (b.0, NotIn-middle k n xs ys h b.1)

AllDistinct-middle :
    (n : ℕ) (xs ys : List ℕ)
    → NotIn n (xs ++ ys)
    → AllDistinct (xs ++ ys)
    → AllDistinct (xs ++ n ∷ ys)
AllDistinct-middle n [] ys f d = (f, d)
AllDistinct-middle n (x ∷ xs) ys f d =
    (NotIn-middle x n xs ys (λ e. f.0 (omega arith)) d.0, AllDistinct-middle n xs ys f.1 d.1)

NotIn-right : (n : ℕ) (xs ys : List ℕ) → NotIn n (xs ++ ys) → NotIn n ys
NotIn-right n [] ys f = f
NotIn-right n (x ∷ xs) ys f = NotIn-right n xs ys f.1

AllBelow-split :
    (k n : ℕ) (xs ys : List ℕ) → AllBelow k (xs ++ n ∷ ys) → (n < k) × AllBelow k (xs ++ ys)
AllBelow-split k n [] ys b = b
AllBelow-split k n (x ∷ xs) ys b = let (h, r) = AllBelow-split k n xs ys b.1 in (h, (b.0, r))

NotIn-split : (k n : ℕ) (xs ys : List ℕ) → NotIn k (xs ++ n ∷ ys) → (k ≢ n) × NotIn k (xs ++ ys)
NotIn-split k n [] ys b = b
NotIn-split k n (x ∷ xs) ys b = let (h, r) = NotIn-split k n xs ys b.1 in (h, (b.0, r))

AllDistinct-split :
    (n : ℕ) (xs ys : List ℕ)
    → AllDistinct (xs ++ n ∷ ys)
    → NotIn n (xs ++ ys) × AllDistinct (xs ++ ys)
AllDistinct-split n [] ys d = d
AllDistinct-split n (x ∷ xs) ys d =
    let (f, r) = AllDistinct-split n xs ys d.1 in
    let (h, g) = NotIn-split x n xs ys d.0 in ((λ e. h (omega arith), f), (g, r))

-- The id is new: below the limit, no live thread has it, and the ids stay sound with it live.
abbrev pub Issued : List ℕ → ℤ → Ids → Type 0
Issued live (pos n) s = (n < thread_lim) × NotIn n live × IsSound (n ∷ live) s
Issued live (negsuc n) s = IsSound live s

IsSound-more :
    {live : List ℕ} {c : ℕ} (free : List ℕ)
    → IsSound live (record { thread_count = c; tid_list = free })
    → IsSound live (record { thread_count = c + 1; tid_list = free })
IsSound-more {live} {c} free v = record {
  distinct = v.distinct;
  issued = AllBelow-mono c (c + 1) (free ++ live) (omega arith) v.issued;
  limited = v.limited;
}

take_new :
    {live : List ℕ} (c : ℕ)
    → IsSound live (record { thread_count = c; tid_list = [] })
    → Issued live (issue c) (record { thread_count = c + 1; tid_list = [] })
unfolding issue
take_new {live} c v = elim (Bool-cases (ltb c thread_lim)) [
  | inl e ↦ rw e (
    ltb→lt c thread_lim e,
    NotIn-AllBelow c live v.issued,
    record {
      distinct = (NotIn-AllBelow c live v.issued, v.distinct);
      issued = (omega arith, AllBelow-mono c (c + 1) live (omega arith) v.issued);
      limited = (ltb→lt c thread_lim e, v.limited);
    },
  )
  | inr e ↦ rw e (IsSound-more [] v)
]

take_recycled :
    {live : List ℕ} (c t : ℕ) (free : List ℕ)
    → IsSound live (record { thread_count = c; tid_list = t ∷ free })
    → Issued live (issue t) (record { thread_count = c; tid_list = free })
unfolding issue
take_recycled {live} c t free v = rw (lt→ltb t thread_lim v.limited.0) (
  v.limited.0,
  NotIn-right t free live v.distinct.0,
  record {
    distinct = AllDistinct-middle t free live v.distinct.0 v.distinct.1;
    issued = AllBelow-middle c t free live v.issued.0 v.issued.1;
    limited = AllBelow-middle thread_lim t free live v.limited.0 v.limited.1;
  },
)

take_id-Issued :
    (live : List ℕ) (c : ℕ) (free : List ℕ)
    → let s : Ids = record { thread_count = c; tid_list = free } in
      IsSound live s → Issued live (take_id s free).0 (take_id s free).1
unfolding take_id
take_id-Issued live c [] v = take_new c v
take_id-Issued live c (t ∷ free) v = take_recycled c t free v

-- From a sound state get_ID gives an id below THREAD_LIM that no live thread has, or -1; either way
-- the ids stay sound, the new one among the live ones.
pub get_id-Issued :
    (live : List ℕ) (s : Ids) → IsSound live s → Issued live (get_id s).0 (get_id s).1
unfolding get_id
get_id-Issued live s v = take_id-Issued live s.thread_count s.tid_list v

free_id-IsSound :
    (live : List ℕ) (n : ℕ) (s : Ids) → IsSound (n ∷ live) s → IsSound live (free_id s n)
unfolding free_id
free_id-IsSound live n s v = record {
  distinct = AllDistinct-split n s.tid_list live v.distinct;
  issued = AllBelow-split s.thread_count n s.tid_list live v.issued;
  limited = AllBelow-split thread_lim n s.tid_list live v.limited;
}

-- In a sound state, freeing a live id keeps the ids sound, with that id no longer live, and the next
-- call of get_ID gives that id again and leaves the state as it was before both calls.
pub get_id-free_id :
    (live : List ℕ) (n : ℕ) (s : Ids)
    → IsSound (n ∷ live) s
    → IsSound live (free_id s n) × (get_id (free_id s n) ≡ (pos n, s))
unfolding get_id free_id take_id issue
get_id-free_id live n s v =
    let (below, _) = AllBelow-split thread_lim n s.tid_list live v.limited in
    let fits : ltb n thread_lim ≡ true = lt→ltb n thread_lim below in
    (free_id-IsSound live n s v, rw (get_id, fits) refl)

-- In a sound state get_ID fails exactly when no id is recycled and THREAD_LIM ids have been issued.
pub get_id-fails_iff :
    (live : List ℕ) (s : Ids)
    → IsSound live s
    → ((get_id s).0 ≡ minus_one) ↔ ((s.tid_list ≡ []) × (thread_lim ≤ s.thread_count))
unfolding get_id issue
get_id-fails_iff live s v = go s.tid_list v.limited
  where
    go :
        (free : List ℕ)
        → AllBelow thread_lim (free ++ live)
        → ((take_id s free).0 ≡ minus_one) ↔ ((free ≡ []) × (thread_lim ≤ s.thread_count))
    go [] b = (ground arith, ground arith)
    go (t ∷ free) b = (ground arith, ground arith)
