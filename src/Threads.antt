-- ===== src/Threads.antt =====
-- The user-level thread library of asst1/my_pthread.c.
pub mod Queue
pub mod State
pub mod Scheduler
pub mod Ids
pub mod Api
pub mod Mutex
pub mod Fixture
