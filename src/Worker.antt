-- ===== src/Worker.antt =====
-- The user-level threads of project2/code/thread-worker.c and thread-worker.h: queues of thread
-- nodes, the PSJF and MLFQ schedulers, the thread calls and the mutex.
pub mod State
pub mod Deque
pub mod Psjf
pub mod Mlfq
pub mod Exits
pub mod Schedule
pub mod Mutex
mod Tests
