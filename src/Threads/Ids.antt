-- ===== src/Threads/Ids.antt =====
-- get_ID and free_ID of asst1/my_pthread.c. The list of recycled ids is a list; free_ID's malloc is
-- taken to succeed, as the source takes it.
pub mod Unique
pub mod Tests
use cs.Base.{ℕ, suc, ◌+◌, List, [], ◌∷◌, ℤ, pos, minus_one, ltb, if◌then◌else◌}
use cs.Threads.State.{Ids, thread_lim}

-- The test against THREAD_LIM.
pub issue : ℕ → ℤ
issue tid = if ltb tid thread_lim then pos tid else minus_one

-- A recycled id if there is one, else a new one.
pub take_id : Ids → List ℕ → ℤ × Ids
unfolding issue
take_id s [] = (issue s.thread_count, record s { thread_count = s.thread_count + 1 })
take_id s (tid ∷ rest) = (issue tid, record s { tid_list = rest })

unfoldable pub get_id : Ids → ℤ × Ids
unfolding take_id
get_id s = take_id s s.tid_list

unfoldable pub free_id : Ids → ℕ → Ids
free_id s tid = record s { tid_list = tid ∷ s.tid_list }
