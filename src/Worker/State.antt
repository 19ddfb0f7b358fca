-- ===== src/Worker/State.antt =====
-- The types of project2/code/thread-worker.h and the globals of thread-worker.c.
use cs.Prelude.{ℕ, ◌*◌, ◌==◌, Bool, Option, none, some, if◌then◌else◌, update, Outcome, ok, fault}

abbrev pub total_queues : ℕ
total_queues = 4

abbrev pub quantum : ℕ
quantum = 250000

-- `S`.
abbrev pub reset_period : ℕ
reset_period = 250000 * 75

-- `enum thread_status`.
pub data ThreadStatus : Type 0 where
  running exitted ready blocked : ThreadStatus

-- `struct TCB`. Of a saved context only this is kept: the node of the thread whose code goes on
-- when the context is restored. `stack` tells whether the stack is allocated.
pub record Tcb : Type 0 where
  pub id : ℕ
  pub context : ℕ
  pub priority : ℕ
  pub priority_psjf : ℕ
  pub stack : Bool
  pub status : ThreadStatus
  pub elapsed : ℕ
  pub response_flag : ℕ
  pub start_time : ℕ

-- `struct node` with the control block that it alone points to. A pointer to a node is a number,
-- 0 when it is NULL.
pub record Node : Type 0 where
  pub tcb : Tcb
  pub next : ℕ

abbrev pub Heap : Type 0
Heap = ℕ → Option Node

pub record Deque : Type 0 where
  pub head : ℕ
  pub tail : ℕ

abbrev pub empty_deque : Deque
empty_deque = record { head = 0; tail = 0 }

-- The globals. `cpu` is the node of the thread whose code runs; `currentlyRunningNode` is
-- `current`, and the two differ only where the code loses track. `timer` is `it_value.tv_usec`.
pub record Workers : Type 0 where
  pub heap : Heap
  pub psjf_queue : Deque
  pub mlfq_list : ℕ → Deque
  pub exit_queue : Deque
  pub buffer : Deque
  pub current : ℕ
  pub cpu : ℕ
  pub timer : ℕ
  pub time_ran : ℕ
  pub tot_cntx_switches : ℕ
  pub num_threads : ℕ
  pub id_incrementer : ℕ

-- A read through NULL or a freed node is a fault.
unfoldable pub load : Heap → ℕ → Outcome Node
load h p = if p == 0 then fault else elim (h p) [ none ↦ fault | some n ↦ ok n ]

-- A write of a whole node at an allocated address.
unfoldable pub write : Heap → ℕ → Node → Heap
write h p n = update h p (some n)

unfoldable pub release : Heap → ℕ → Heap
release h p = update h p none
