-- ===== src/Lib.antt =====
-- Verification library of the operating system projects: bit operations (project1), user-level
-- threads (project2), simulated virtual memory (project3) and a file system (project4).
--
-- Paths are from the repository's root. A run of C code is an `Outcome`: a value, a call of
-- `exit`, a fault for undefined behaviour, or no end within the fuel (Prelude/Outcomes).
--
-- * Bitmap models the bit operations of project3/code/my_vm.c (and project1/bitops.c), on arrays
--   of signed `char`, and those of project4/rufs.h, on `unsigned char`. Bitmap/Bits has the laws
--   on bytes, Bitmap/View those on whole arrays, Bitmap/Unsigned compares the two families.
-- * Memory is the 32-bit memory of the process, with words, `memset` and `memcpy`.
-- * Vm models project3/code/my_vm.c and my_vm.h. Vm/State has the globals; Vm/Pages is
--   `get_next_avail` and `get_next_avail_p`; Vm/Tables the TLB (`add_TLB`, `check_TLB`,
--   `free_TLB`), `translate` and `page_map`; Vm/Alloc `set_physical_mem`, `t_malloc` and
--   `t_free`; Vm/Access `put_value`, `get_value` and `mat_mult`; Vm/Session the calls of a program
--   as steps, and the states that they lead to. The page tables lie in the bytes
--   of the memory. A pointer is its address, and `pte_t` has four bytes. The pthread mutex makes
--   the calls run one after the other and has no model. `print_TLB_missrate` only prints. What
--   `malloc` gives is in the record `Host`. Where `check_TLB` finds nothing it ends with no
--   `return`, and `translate` uses the result: this undefined behaviour is no fault
--   but any value, also in `Host`, and the theorems hold for all of its values. Products and shifts
--   of a page number in `t_malloc` wrap around; in C they are on `int`, and overflow from page 2^19
--   on, which is more than there are frames.
-- * Worker models project2/code/thread-worker.c and thread-worker.h. Worker/State has the nodes,
--   which live in a heap and are shared by their addresses, and the globals; Worker/Deque the
--   linked queues; Worker/Psjf and Worker/Mlfq the queues of the two policies; Worker/Exits the
--   exited threads; Worker/Schedule the schedulers, and Worker/Schedule/Threads the calls on
--   threads; Worker/Mutex the mutex. Of a saved context the model keeps whose code it resumes.
--   `worker_join` is given a round of its spin loops at a time, since only an interrupt ends
--   them. The averages of times are not modelled: only `print_app_stats` reads them. The counters
--   of a thread (`elapsed`, `priorityPSJF`) are `int` in C and numbers without a bound here.
-- * Rufs models the disk of project4/block.c (Rufs/Disk), and of project4/rufs.c the search of
--   the bitmaps (Rufs/Alloc), the reading and writing of inodes (Rufs/Inodes), `rufs_mkfs`
--   (Rufs/Mkfs), `dir_find`, `dir_add`, `dir_remove` and `get_node_by_path` (Rufs/Directory), and
--   the FUSE calls (Rufs/Fuse): `rufs_getattr`, `rufs_opendir`, `rufs_open` and `rufs_readdir` in
--   Rufs/Fuse/Attributes, `rufs_mkdir`, `rufs_create` and the calls without a body in
--   Rufs/Fuse/Make, `rufs_read` and `rufs_write` in Rufs/Fuse/Transfer, `rufs_init` and
--   `rufs_destroy` in Rufs/Fuse/Start. Structs are kept as bytes, at the offsets of the 64-bit
--   target. `basename` and `dirname` are those that libgen.h documents. What `malloc` gives, the
--   time and the identity of the user are parameters. The offset of a block, an `int` product in C,
--   does not overflow here; it would from block 2^19 on, behind every block of a disk that
--   `rufs_mkfs` makes. `main` is not modelled.
--
-- Loops with a counter are recursion on the number of rounds. A walk along links takes fuel; a
-- queue of n nodes needs at most n + 1 rounds, and each theorem on a walk gives the bound that it
-- needs. project1/stack.c and threads.c, the older copy of the thread library, and the samples
-- and benchmarks are not modelled.
mod Prelude
pub mod Bitmap
pub mod Memory
pub mod Vm
pub mod Worker
pub mod Rufs
