-- ===== src/Threads/Queue/Ring.antt =====
-- When a queue record and the heap hold a given list of entries, each an address and a thread.
use cs.Base.{update, ℕ, ◌≡◌, refl, sym, ◌≢◌, List, [], ◌∷◌, ◌++◌, Option, none, some, arith, length}
use cs.Threads.Queue.{Node, Queue, Heap}

-- An address and the thread that the node there holds.
abbrev pub Entry : Type 0
Entry = ℕ × ℕ

-- `a` is the address of none of the entries.
abbrev pub IsFresh : ℕ → List Entry → Type 0
IsFresh a [] = Unit
IsFresh a ((b, t) ∷ es) = (a ≢ b) × IsFresh a es

abbrev pub AreDistinct : List Entry → Type 0
AreDistinct [] = Unit
AreDistinct ((a, t) ∷ es) = IsFresh a es × AreDistinct es

-- The address that a link to the list `es` holds, if what follows it is at `q`.
abbrev pub first : List Entry → ℕ → ℕ
first [] q = q
first ((a, t) ∷ es) q = a

abbrev pub last : Entry → List Entry → Entry
last e [] = e
last e (x ∷ es) = last x es

-- The nodes of `es` follow one another on the heap, and the last links to `q`.
abbrev pub Segment : Heap → List Entry → ℕ → Type 0
Segment h [] q = Unit
Segment h ((a, t) ∷ es) q = (h a ≡ some (record { thread = t; next = first es q })) × Segment h es q

-- The queue holds `es`, the oldest first.
abbrev pub Ring : Heap → Queue → List Entry → Type 0
Ring h q [] = (q.back ≡ none) × (q.size ≡ 0)
Ring h q (e ∷ es) =
    (q.back ≡ some (last e es).0)
    × (q.size ≡ length (e ∷ es))
    × Segment h (e ∷ es) e.0
    × AreDistinct (e ∷ es)

pub Segment-update :
    (h : Heap) (es : List Entry) (q a : ℕ) (n : Option Node)
    → IsFresh a es
    → Segment h es q
    → Segment (update h a n) es q
Segment-update h [] q a n f s = tt
Segment-update h ((b, t) ∷ es) q a n f s = (ground arith, Segment-update h es q a n f.1 s.1)

pub IsFresh-last : (a : ℕ) (e : Entry) (es : List Entry) → IsFresh a (e ∷ es) → a ≢ (last e es).0
IsFresh-last a e [] f = f.0
IsFresh-last a e (x ∷ es) f = IsFresh-last a x es f.1

-- What the back node holds.
pub Segment-last :
    (h : Heap) (e : Entry) (es : List Entry) (q : ℕ)
    → Segment h (e ∷ es) q
    → h (last e es).0 ≡ some (record { thread = (last e es).1; next = q })
Segment-last h e [] q s = s.0
Segment-last h e (x ∷ es) q s = Segment-last h x es q s.1

-- Writing the link of the back node redirects the whole segment.
pub Segment-relink :
    (h : Heap) (e : Entry) (es : List Entry) (q r : ℕ)
    → AreDistinct (e ∷ es)
    → Segment h (e ∷ es) q
    → Segment
        (update h (last e es).0 (some (record { thread = (last e es).1; next = r })))
        (e ∷ es)
        r
Segment-relink h e [] q r d s = (ground arith, tt)
Segment-relink h e (x ∷ es) q r d s =
    (ground (arith, IsFresh-last e.0 x es d.0), Segment-relink h x es q r d.1 s.1)

pub Segment-append :
    (h : Heap) (es : List Entry) (a t q : ℕ)
    → Segment h es a
    → h a ≡ some (record { thread = t; next = q })
    → Segment h (es ++ (a, t) ∷ []) q
Segment-append h [] a t q s e = (e, tt)
Segment-append h (x ∷ []) a t q s e = (s.0, (e, tt))
Segment-append h (x ∷ y ∷ es) a t q s e = (s.0, Segment-append h (y ∷ es) a t q s.1 e)

pub IsFresh-append :
    (a b t : ℕ) (es : List Entry) → a ≢ b → IsFresh a es → IsFresh a (es ++ (b, t) ∷ [])
IsFresh-append a b t [] n f = (n, tt)
IsFresh-append a b t (x ∷ es) n f = (f.0, IsFresh-append a b t es n f.1)

pub AreDistinct-append :
    (a t : ℕ) (es : List Entry) → IsFresh a es → AreDistinct es → AreDistinct (es ++ (a, t) ∷ [])
AreDistinct-append a t [] f d = (tt, tt)
AreDistinct-append a t (x ∷ es) f d =
    (IsFresh-append x.0 a t es (λ e. f.0 (sym e)) d.0, AreDistinct-append a t es f.1 d.1)

pub last-append : (e : Entry) (es : List Entry) (x : Entry) → last e (es ++ x ∷ []) ≡ x
last-append e [] x = refl
last-append e (y ∷ es) x = last-append y es x
