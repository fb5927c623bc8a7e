-- ===== src/Threads/Ids/Tests.antt =====
-- The properties of thread ids at a state with one live and one recycled id.
use cs.Base.{◌≡◌, pos, [], ◌∷◌, arith}
use cs.Threads.State.{Ids}
use cs.Threads.Ids.{get_id, free_id}
use cs.Threads.Ids.Unique.{IsSound, Issued, get_id-Issued, get_id-free_id}

abbrev recycled : Ids
recycled = record { thread_count = 3; tid_list = 1 ∷ [] }

recycled-IsSound : IsSound (2 ∷ []) recycled
recycled-IsSound = record {
  distinct = ((omega arith, tt), (tt, tt));
  issued = (omega arith, (omega arith, tt));
  limited = (omega arith, (omega arith, tt));
}

get_id-Issued_example : Issued (2 ∷ []) (get_id recycled).0 (get_id recycled).1
get_id-Issued_example = get_id-Issued (2 ∷ []) recycled recycled-IsSound

get_id-free_id_example :
    IsSound [] (free_id recycled 2) × (get_id (free_id recycled 2) ≡ (pos 2, recycled))
get_id-free_id_example = get_id-free_id [] 2 recycled recycled-IsSound
