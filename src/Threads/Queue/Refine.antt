-- ===== src/Threads/Queue/Refine.antt =====
-- The linked queue against the first-in first-out list of its threads.
use cs.Base.{
  update, ℕ, suc, ◌+◌, ◌≡◌, refl, List, [], ◌∷◌, ◌++◌, none, some, arith, length, length-append,
  ◌==◌, if◌then◌else◌,
}
use cs.Threads.Queue.{Queue, Heap, get_next, take_last, take_first, enqueue, link_back}
use cs.Threads.Queue.Ring.{
  Entry, IsFresh, Segment, Ring, last, Segment-update, IsFresh-last, Segment-last, Segment-relink,
  Segment-append, AreDistinct-append, last-append,
}

-- The state after a queue of one node has given it away.
take_last-Ring :
    (h : Heap) (q : Queue) (e : Entry)
    → Ring h q (e ∷ [])
    → take_last h q ≡ some (some e.1, update h e.0 none, record { back = none; size = 0 })
unfolding take_last
take_last-Ring h q e r = ground arith

module _ (h : Heap) (q : Queue) (e x : Entry) (es : List Entry) (r : Ring h q (e ∷ x ∷ es)) where
  -- The heap once the back node links to the second entry.
  abbrev relinked : Heap
  relinked = update h (last x es).0 (some (record { thread = (last x es).1; next = x.0 }))

  back_next : (if q.size == 2 then (last x es).0 else x.0) ≡ x.0
  back_next = go es (r.1)
    where
      go :
          (l : List Entry)
          → q.size ≡ length (e ∷ x ∷ l)
          → (if q.size == 2 then (last x l).0 else x.0) ≡ x.0
      go [] s = ground arith
      go (y ∷ l) s = ground arith

  take_first-Ring :
      take_first h q
      ≡ some (some e.1, update relinked e.0 none, record q { size = suc (length es) })
  unfolding take_first
  take_first-Ring =
      ground (arith, back_next, Segment-last h e (x ∷ es) e.0 r.2, IsFresh-last e.0 x es r.3.0)

  -- What is left is a ring of the later entries.
  rest-Ring : Ring (update relinked e.0 none) (record q { size = suc (length es) }) (x ∷ es)
  rest-Ring = (
    r.0,
    refl,
    Segment-update relinked (x ∷ es) x.0 e.0 none r.3.0 (Segment-relink h x es e.0 x.0 r.3.1 r.2.1),
    r.3.1,
  )

-- What a call of get_next does on a queue that holds `es`: the oldest thread comes out, its node is
-- freed, the others stay in order, and no node outside the queue changes.
abbrev pub Takes : Heap → Queue → List Entry → Type 0
Takes h q [] = get_next h q ≡ some (none, h, q)
Takes h q (e ∷ es) =
    (h' : Heap) × (q' : Queue) × (get_next h q ≡ some (some e.1, h', q'))
    × Ring h' q' es
    × (h' e.0 ≡ none)
    × ((p : ℕ) → IsFresh p (e ∷ es) → h' p ≡ h p)

-- get_next on a queue that holds a list of threads gives NULL and changes nothing if the list is
-- empty, and otherwise never faults, gives the oldest thread, frees its node, keeps the rest in
-- order and leaves the heap outside the queue as it was.
pub get_next-Takes : (h : Heap) (q : Queue) (es : List Entry) → Ring h q es → Takes h q es
unfolding get_next
get_next-Takes h q [] r = ground arith
get_next-Takes h q (e ∷ []) r = (
  update h e.0 none,
  record { back = none; size = 0 },
  ground (arith, take_last-Ring h q e r),
  (refl, refl),
  ground arith,
  λ p f. ground (arith, f.0),
)
get_next-Takes h q (e ∷ x ∷ es) r = (
  update (relinked h q e x es r) e.0 none,
  record q { size = suc (length es) },
  ground (arith, take_first-Ring h q e x es r),
  rest-Ring h q e x es r,
  ground arith,
  λ p f. ground (arith, f.0, IsFresh-last p x es f.1),
)

-- What a call of enqueue with a new node at `a` does on a queue that holds `es`.
abbrev pub Puts : Heap → Queue → List Entry → ℕ → ℕ → Type 0
Puts h q es a t =
    (h' : Heap) × (q' : Queue) × (enqueue h (some a) t q ≡ some (h', q'))
    × Ring h' q' (es ++ (a, t) ∷ [])
    × ((p : ℕ) → IsFresh p ((a, t) ∷ es) → h' p ≡ h p)

module _ (h : Heap) (q : Queue) (e : Entry) (es : List Entry) (a t : ℕ) where
  abbrev with_node : Heap
  with_node = update h a (some (record { thread = t; next = e.0 }))

  abbrev linked : Heap
  linked = update with_node (last e es).0 (some (record { thread = (last e es).1; next = a }))

  link_back-Ring : IsFresh a (e ∷ es) → Ring h q (e ∷ es) → link_back h a t q ≡ some linked
  unfolding link_back
  link_back-Ring f r = ground (arith, Segment-last h e es e.0 r.2, IsFresh-last a e es f)

  linked-Segment :
      IsFresh a (e ∷ es) → Ring h q (e ∷ es) → Segment linked ((e ∷ es) ++ (a, t) ∷ []) e.0
  linked-Segment f r =
      Segment-append linked (e ∷ es) a t e.0
        (Segment-relink with_node e es e.0 a r.3
          (Segment-update h (e ∷ es) e.0 a (some (record { thread = t; next = e.0 })) f r.2))
        (ground (arith, IsFresh-last a e es f))

-- enqueue with a node that malloc returned and that the queue does not use never faults, puts the
-- thread behind all the others, and leaves the heap outside the queue and that node as it was.
pub enqueue-Puts :
    (h : Heap) (q : Queue) (es : List Entry) (a t : ℕ)
    → IsFresh a es
    → Ring h q es
    → Puts h q es a t
unfolding enqueue
enqueue-Puts h q [] a t f r = (
  update h a (some (record { thread = t; next = a })),
  record { back = some a; size = 1 },
  ground arith,
  (refl, refl, (ground arith, tt), (tt, tt)),
  λ p f. ground (arith, f.0),
)
enqueue-Puts h q (e ∷ es) a t f r = (
  linked h q e es a t,
  record { back = some a; size = q.size + 1 },
  ground (arith, link_back-Ring h q e es a t f r),
  (
    rw last-append refl,
    omega (arith, r.1, length-append es ((a, t) ∷ [])),
    linked-Segment h q e es a t f r,
    AreDistinct-append a t (e ∷ es) f r.3,
  ),
  λ p g. ground (arith, g.0, IsFresh-last p e es g.1),
)
