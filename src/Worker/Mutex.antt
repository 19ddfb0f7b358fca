-- ===== src/Worker/Mutex.antt =====
-- The mutex of project2/code/thread-worker.c: `worker_mutex_init`, `worker_mutex_lock`,
-- `worker_mutex_unlock` and `worker_mutex_destroy`.
pub mod Lock
pub mod Wake
use cs.Prelude.{
  ℕ, zero, suc, Bool, true, false, Option, none, some, ◌==◌, if◌then◌else◌, Outcome, ok, fault,
  out_of_fuel, ◌>>=◌,
}
use cs.Worker.State.{Deque, empty_deque, Workers, ready, blocked, load}
use cs.Worker.Deque.{enqueue_mutex, dequeue_mutex}
use cs.Worker.Psjf.{set_status, enqueue_psjf, dequeue_psjf}
use cs.Worker.Mlfq.{enqueue_mlfq, dequeue_mlfq}
use cs.Worker.Schedule.{switch}

-- `worker_mutex_t`. The queue of blocked threads is allocated until the mutex is destroyed.
pub record Mutex : Type 0 where
  pub id : ℕ
  pub blocked_threads : Option Deque
  pub available : ℕ

-- `mutex_id_incrementer` is 1 throughout.
unfoldable pub worker_mutex_init : Mutex
worker_mutex_init = record { id = 1; blocked_threads = some empty_deque; available = 0 }

unfoldable pub blocked_queue : Mutex → Outcome Deque
blocked_queue m = elim m.blocked_threads [ none ↦ fault | some q ↦ ok q ]

-- The thread leaves the queues of the scheduler.
unfoldable pub leave_queues : Bool → ℕ → Workers → Outcome (ℕ × Workers)
leave_queues use_mlfq fuel s =
    if use_mlfq
    then dequeue_mlfq s
    else dequeue_psjf fuel s s.current >>= (λ s'. ok (s.current, s'))

-- The branch on a mutex that is held.
unfoldable pub block_on : Bool → ℕ → Workers → Mutex → Outcome (Workers × Mutex)
block_on use_mlfq fuel s m = do
  r ← leave_queues use_mlfq fuel s
  let (node, s1) = r
  h ← set_status s1.heap node blocked
  q ← blocked_queue m
  r' ← enqueue_mutex fuel h node q
  let (h', q') = r'
  s2 ← switch use_mlfq fuel (record s1 { heap = h' })
  ok (s2, record m { blocked_threads = some q' })

-- The exchange stores the thread's id whichever branch follows.
unfoldable pub worker_mutex_lock : Bool → ℕ → Workers → Mutex → Outcome (Workers × Mutex)
worker_mutex_lock use_mlfq fuel s m = load s.heap s.current >>= λ n.
    let m' = record m { available = n.tcb.id } in
    if m.available == 0 then ok (s, m') else block_on use_mlfq fuel s m'

unfoldable pub wake : Bool → ℕ → Workers → ℕ → Outcome Workers
wake use_mlfq fuel s node =
    if use_mlfq
    then enqueue_mlfq fuel s node
    else set_status s.heap node ready >>= (λ h. enqueue_psjf fuel (record s { heap = h }) node)

-- The loop of `worker_mutex_unlock`.
unfoldable pub wake_all : Bool → ℕ → Workers → Deque → Outcome (Workers × Deque)
wake_all use_mlfq zero s q = out_of_fuel
wake_all use_mlfq (suc fuel) s q = elim (q.head == 0) [
  | true ↦ ok (s, q)
  | false ↦ dequeue_mutex s.heap q >>= λ r.
      wake use_mlfq fuel (record s { heap = r.1 }) r.0 >>= λ s'. wake_all use_mlfq fuel s' r.2
]

unfoldable pub worker_mutex_unlock : Bool → ℕ → Workers → Mutex → Outcome (Workers × Mutex)
worker_mutex_unlock use_mlfq fuel s m = do
  q ← blocked_queue m
  r ← wake_all use_mlfq fuel s q
  ok (r.0, record m { available = 0; blocked_threads = some r.1 })

unfoldable pub worker_mutex_destroy : Mutex → Outcome Mutex
worker_mutex_destroy m = blocked_queue m >>= λ _. ok (record m { blocked_threads = none })
