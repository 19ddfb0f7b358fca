-- ===== src/Vm.antt =====
-- The simulated virtual memory of project3/code/my_vm.c and my_vm.h: bitmaps of pages, a
-- two-level page table inside the simulated physical memory, a direct-mapped TLB, and the calls
-- `t_malloc`, `t_free`, `put_value`, `get_value` and `mat_mult`.
pub mod State
pub mod Pages
pub mod Tables
pub mod Alloc
pub mod Access
pub mod Session
mod Tests
