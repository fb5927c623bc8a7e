-- ===== src/Sfs.antt =====
-- The FUSE file system of asst3/assignment3/src: block.c under sfs.c.
pub mod Block
pub mod Session
pub mod Short
pub mod State
pub mod Tables
pub mod Path
pub mod Index
pub mod File
pub mod Span
pub mod Read
pub mod Write
pub mod Create
pub mod Mkdir
pub mod Remove
pub mod Readdir
pub mod Mount
pub mod Memory
pub mod Fixture
pub mod Tests
