-- ===== src/Lib.antt =====
-- A user-level thread library (asst1), a paging allocator for it (asst2) and a FUSE file system
-- (asst3) of an operating systems course, modelled function by function.
--
-- The thread library, asst1/my_pthread.c and asst1/my_pthread_t.h, switches threads in the handler
-- of a timer signal. `Threads/Queue.antt` models its circular linked queues on an explicit heap,
-- with every dereference that can fail (make_queue, get_next, enqueue); `Threads/Queue/Refine.antt`
-- relates them to lists, and the rest of the model keeps each queue as a list, oldest first.
-- `Threads/State.antt` has the globals as one record, with threads and mutexes known by address;
-- `Threads/Scheduler.antt` the initialisation and the alarm handler, as a function from a state to
-- how the handler ends; `Threads/Ids.antt` get_ID and free_ID; `Threads/Api.antt` create, yield,
-- exit and join; `Threads/Mutex.antt` the mutex functions. A signal raised by a thread is a call of
-- the handler. A call that blocks ends in the state in which the next thread runs, and what it does
-- when its thread runs again is a function of its own (join_finish, claim). An access outside a
-- table or through a null or freed pointer is the outcome `fault`; a search that never ends is the
-- outcome `spins`. The search for the next thread has as many rounds of fuel as there are levels,
-- and after that many empty levels the source repeats itself for ever.
--
-- The allocator, in asst2/my_pthread.c, replaces malloc for the threads by pages of a simulated
-- memory. `Paging.antt` models page_malloc_init, page_malloc, page_free and the handler of page
-- faults, vmem_sig_handler, with metadata known by their place in page_data. Walks along links have
-- NUM_PAGES steps of fuel, enough for every list without a circle.
--
-- `Malloc.antt` models the earlier allocator of asst2, mymalloc.c: mymalloc and myfree over the array of
-- page metadata, and `Malloc/Split.antt` mem_split. `Malloc/Runs.antt`, `Search` and `Large` are about
-- requests of more than a page. Its loops have 2098 steps of fuel: no search goes past
-- that place, where the area of the metadata ends.
--
-- The file system, asst3/assignment3/src, keeps its tables in memory and its blocks in a file.
-- `Sfs/Block.antt` models block.c over the calls pread and pwrite, which are a parameter (`Disk`)
-- with their documented behaviour on a regular file as hypotheses (`IsReliable`);
-- `Sfs/Memory.antt` is a file in memory that has this behaviour; `Sfs/Session.antt` models disk_open
-- and disk_close over the calls open and close (`Files`, `IsPosix`), apart from the rest, where the file
-- of the disk is open. `Sfs/State.antt` has the tables
-- of sfs.c and the structs of params.h, `Sfs/Tables.antt` their allocation, `Sfs/Path.antt`
-- get_cwd_path and get_name, `Sfs/Short.antt` blocks as arrays of 16-bit integers,
-- `Sfs/Index.antt` get_block_index and set_block_index, `Sfs/File.antt` getattr, open and release,
-- `Sfs/Span.antt`, `Sfs/Read.antt` and `Sfs/Write.antt` read and write, `Sfs/Create.antt` create,
-- `Sfs/Mkdir.antt` mkdir, `Sfs/Remove.antt` unlink and rmdir with removeSubstring, and
-- `Sfs/Readdir.antt` readdir. `Sfs/Mount.antt` models sfs_init and sfs_destroy, which keep the tables in
-- the last blocks of the disk: the memory layout that the compiler gives the tables is a parameter
-- (`Layout`), of which `IsLaidOut` says that it has room for the values. The global cwd_inode is left
-- out, since every function sets it before it reads it. Sizes and counters wrap where the C types do;
-- `none` is an access outside a table or a buffer.
-- The search for the end of a directory has 1111 steps of fuel, one more than a file has blocks,
-- behind which everything reads as zeros. The lemmas on writing stand in the modules below
-- `Sfs/Write.antt`: `Apart` has the files of which no two blocks are the same, `Content`, `Buffer`
-- and `Overwrite` the buffer that is written back, `Grow` and `Append` the blocks that a file of at most ten gets, and
-- `Refine` relates an open file to the list of its bytes (`HasFile`), to which `Sfs/Create/Opened.antt`
-- leads from sfs_create, with `Room` on the table of blocks and the size of the disk. A file of more blocks is covered for writes into the blocks that it has.
--
-- Not modelled: machine contexts (getcontext and the like), which appear only as whether they
-- succeed; the scheduler of asst2, which repeats that of asst1, but for the switch with its page
-- protection (`Paging/Protect.antt`): its malloc is page_malloc, so that the nodes of its queues lie
-- in the frames that the handler of page faults swaps; the log. Where getcontext fails in
-- scheduler_init the source leaves the timer structs unallocated, and the model goes on with a
-- stopped timer.
--
-- `Base.antt` has the names and lemmas that all parts share. The modules called Tests apply
-- theorems to small concrete states, which the modules called Fixture and Memory define.
pub mod Base
pub mod Threads
pub mod Paging
pub mod Malloc
pub mod Sfs
