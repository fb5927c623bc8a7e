-- ===== src/Threads/Queue/Tests.antt =====
-- The queue properties at a queue of two nodes.
use cs.Base.{refl, List, [], ◌∷◌, none, some, update, arith}
use cs.Threads.Queue.{Queue, Heap}
use cs.Threads.Queue.Ring.{Entry, Ring, IsFresh}
use cs.Threads.Queue.Refine.{Takes, Puts, get_next-Takes, enqueue-Puts}

abbrev entries : List Entry
entries = (10, 1) ∷ (20, 2) ∷ []

abbrev nodes : Heap
nodes =
    update (update (λ p. none) 10 (some (record { thread = 1; next = 20 }))) 20
      (some (record { thread = 2; next = 10 }))

abbrev queue : Queue
queue = record { back = some 20; size = 2 }

ring : Ring nodes queue entries
ring = (refl, refl, (refl, (refl, tt)), ((omega arith, tt), (tt, tt)))

get_next-Takes_example : Takes nodes queue entries
get_next-Takes_example = get_next-Takes nodes queue entries ring

fresh : IsFresh 30 entries
fresh = (omega arith, (omega arith, tt))

enqueue-Puts_example : Puts nodes queue entries 30 3
enqueue-Puts_example = enqueue-Puts nodes queue entries 30 3 fresh ring
