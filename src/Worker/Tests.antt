-- ===== src/Worker/Tests.antt =====
-- Runs of the threads of project2/code/thread-worker.c at concrete inputs.
mod Turns
use cs.Prelude.{
  ℕ, suc, ◌+◌, ◌*◌, ◌≤◌, ◌<◌, ◌≡◌, refl, ◌≢◌, ◌↔◌, ◌⊎◌, true, none, some, [], ◌∷◌, arith, ◌==◌,
  if◌then◌else◌, ok, out_of_fuel, ◌>>=◌,
}
use cs.Worker.Schedule.{sched_mlfq}
use cs.Worker.Schedule.RoundRobin.{Rotated, sched_mlfq_round_robin}
use cs.Worker.Exits.{found_in_exit_queue, pop}
use cs.Worker.Exits.Pop.{pop-head}
use cs.Worker.State.{
  ThreadStatus, running, ready, Node, Heap, Deque, empty_deque, Workers, quantum, load, write,
}
use cs.Worker.Deque.{enqueue_mutex}
use cs.Worker.Deque.Chain.{Chain, IsQueue, NotIn}
use cs.Worker.Deque.Laws.{KeepsTcbs, Dequeued, enqueue_mutex-append, dequeue_mutex-head}
use cs.Worker.Psjf.{set_currently_running_psjf, dequeue_psjf}
use cs.Worker.Psjf.Select.{Least, set_currently_running_psjf-Least}
use cs.Worker.Psjf.Unlink.{dequeue_psjf_spins, dequeue_psjf_second}
use cs.Worker.Mlfq.{changed_priority, enqueue_mlfq}
use cs.Worker.Mlfq.Levels.{changed_priority_lem}
use cs.Worker.Mlfq.Enqueue.{enqueue_mlfq-append}
use cs.Worker.Mlfq.Queues.{LeftQueue, dequeue_mlfq-head}
use cs.Worker.Schedule.{sched_psjf}
use cs.Worker.Schedule.Preempt.{demoted, preempted, sched_psjf-Least}
use cs.Worker.Mutex.{Mutex, worker_mutex_unlock}
use cs.Worker.Mutex.Wake.{Apart, AllAt, worker_mutex_unlock-append}
use cs.Worker.State.{blocked}
use cs.Worker.Mutex.{worker_mutex_unlock}

abbrev thread : ℕ → ThreadStatus → ℕ → Node
thread id status next = record {
  tcb = record {
    id = id;
    context = 100 + id;
    priority = 0;
    priority_psjf = 0;
    stack = true;
    status = status;
    elapsed = 0;
    response_flag = 0;
    start_time = 0;
  };
  next = next;
}

-- The nodes 101 and 102 make up a queue; the node 103 is in none.
abbrev heap : Heap
heap p =
    if p == 101
    then some (thread 1 running 102)
    else if p == 102
    then some (thread 2 ready 0)
    else if p == 103
    then some (thread 3 ready 0)
    else none

abbrev queue : Deque
queue = record { head = 101; tail = 102 }

queue-Chain : Chain heap 101 (101 ∷ 102 ∷ [])
queue-Chain = (
  refl,
  λ e. omega arith,
  (λ e. omega arith, tt),
  thread 1 running 102,
  refl,
  (refl, λ e. omega arith, tt, thread 2 ready 0, refl, refl),
)

queue-IsQueue : IsQueue heap queue (101 ∷ 102 ∷ [])
queue-IsQueue = record { chain = queue-Chain; tail_last = (λ e. omega arith, tt) }

abbrev workers : Workers
workers = record {
  heap = heap;
  psjf_queue = queue;
  mlfq_list = λ i. if i == 0 then queue else empty_deque;
  exit_queue = queue;
  buffer = empty_deque;
  current = 101;
  cpu = 101;
  timer = 0;
  time_ran = 0;
  tot_cntx_switches = 0;
  num_threads = 2;
  id_incrementer = 4;
}

enqueue_mutex-append_example :
    (h : Heap) × (q : Deque) × (enqueue_mutex 2 heap 103 queue ≡ ok (h, q))
    × IsQueue h q (101 ∷ 102 ∷ 103 ∷ [])
    × KeepsTcbs heap h
    × ((b : ℕ) → NotIn b (101 ∷ 102 ∷ []) → h b ≡ heap b)
enqueue_mutex-append_example =
    enqueue_mutex-append 2 heap queue (101 ∷ 102 ∷ []) 103 (thread 3 ready 0) queue-IsQueue
      (omega arith) (λ e. omega arith) (λ e. omega arith, (λ e. omega arith, tt)) refl refl

dequeue_mutex-head_example : Dequeued heap queue 101 (102 ∷ [])
dequeue_mutex-head_example = dequeue_mutex-head heap queue 101 (102 ∷ []) queue-IsQueue

set_currently_running_psjf-Least_example :
    (r : ℕ) × (set_currently_running_psjf 3 workers ≡ ok (record workers { current = r }))
    × Least heap (101 ∷ 102 ∷ []) 101 0 r
set_currently_running_psjf-Least_example =
    set_currently_running_psjf-Least 3 workers 101 (102 ∷ []) (thread 1 running 102) queue-Chain
      refl (omega arith)

sched_psjf-Least_example :
    (r : ℕ) × (m : Node) × (head : Node) × (sched_psjf 3 workers
      ≡ ok (preempted workers (write heap 101 (demoted (thread 1 running 102))) r m))
    × (write heap 101 (demoted (thread 1 running 102)) r ≡ some m)
    × (write heap 101 (demoted (thread 1 running 102)) 101 ≡ some head)
    × Least
        (write heap 101 (demoted (thread 1 running 102)))
        (101 ∷ 102 ∷ [])
        101
        head.tcb.priority_psjf
        r
sched_psjf-Least_example =
    sched_psjf-Least 3 workers 101 (102 ∷ []) (thread 1 running 102) (λ e. omega arith) refl refl
      queue-Chain (omega arith)

dequeue_psjf_spins_example : dequeue_psjf 1000 workers 101 ≡ out_of_fuel
dequeue_psjf_spins_example =
    dequeue_psjf_spins 1000 workers 101 102 101 [] (thread 2 ready 0) (thread 1 running 102)
      queue-Chain refl (λ e. omega arith) refl (λ e. omega arith)

enqueue_mlfq-append_example :
    (s : Workers) × (enqueue_mlfq 2 workers 103 ≡ ok s)
    × IsQueue s.heap (s.mlfq_list 0) (101 ∷ 102 ∷ 103 ∷ [])
    × ((k : ℕ) → k ≢ 0 → s.mlfq_list k ≡ workers.mlfq_list k)
    × KeepsTcbs heap s.heap
    × (s.current ≡ 101)
    × (s.timer ≡ quantum)
    × (s.time_ran ≡ workers.time_ran)
    × ((b : ℕ) → NotIn b (101 ∷ 102 ∷ []) → s.heap b ≡ heap b)
enqueue_mlfq-append_example =
    enqueue_mlfq-append 2 workers (101 ∷ 102 ∷ []) 103 (thread 3 ready 0) (λ e. omega arith)
      (λ e. omega arith) refl refl (omega arith) queue-IsQueue
      (λ e. omega arith, (λ e. omega arith, tt)) (omega arith)

dequeue_mlfq-head_example : LeftQueue workers 101 (102 ∷ []) 0 (thread 1 running 102)
dequeue_mlfq-head_example =
    dequeue_mlfq-head workers 101 (102 ∷ []) (thread 1 running 102) refl refl (omega arith)
      queue-IsQueue

abbrev free_mutex : Mutex
free_mutex = record { id = 1; blocked_threads = some empty_deque; available = 0 }

abbrev held_mutex : Mutex
held_mutex = record { id = 1; blocked_threads = some empty_deque; available = 2 }

pop-head_example :
    (s : Workers) × (found_in_exit_queue 1 workers 1 ≡ ok true)
    × (pop 1 workers 1 ≡ ok s)
    × IsQueue s.heap s.exit_queue (102 ∷ [])
    × (s.heap 101 ≡ none)
pop-head_example =
    pop-head 0 workers 1 101 (102 ∷ []) (thread 1 running 102) queue-IsQueue refl refl

sched_mlfq_round_robin_example :
    (s : Workers) × (sched_mlfq 5 workers ≡ ok s)
    × IsQueue s.heap (s.mlfq_list 0) (102 ∷ 101 ∷ [])
    × (s.current ≡ 102)
    × (s.cpu ≡ 102)
    × (s.timer ≡ quantum)
    × Rotated workers s 101 102 (thread 1 running 102) (thread 2 ready 0)
unfolding changed_priority
sched_mlfq_round_robin_example =
    sched_mlfq_round_robin 5 workers 101 102 [] (thread 1 running 102) (thread 2 ready 0) refl refl
      refl (omega arith) refl queue-IsQueue (λ j lt. absurd (omega arith)) refl (omega arith)
      (omega arith)

-- The threads 3 and 4 wait for a mutex that the thread 1 holds.
abbrev two_blocked : Workers
two_blocked = record workers {
  heap = λ p.
      if p == 103
      then some (thread 3 blocked 104)
      else if p == 104
      then some (thread 4 blocked 0)
      else heap p;
}

abbrev waited_mutex : Mutex
waited_mutex = record {
  id = 1;
  blocked_threads = some (record { head = 103; tail = 104 });
  available = 1;
}

waiting-IsQueue : IsQueue two_blocked.heap (record { head = 103; tail = 104 }) (103 ∷ 104 ∷ [])
waiting-IsQueue = record {
  chain = (
    refl,
    λ e. omega arith,
    (λ e. omega arith, tt),
    thread 3 blocked 104,
    refl,
    (refl, λ e. omega arith, tt, thread 4 blocked 0, refl, refl),
  );
  tail_last = (λ e. omega arith, tt);
}

running-IsQueue : IsQueue two_blocked.heap queue (101 ∷ 102 ∷ [])
running-IsQueue = record {
  chain = (
    refl,
    λ e. omega arith,
    (λ e. omega arith, tt),
    thread 1 running 102,
    refl,
    (refl, λ e. omega arith, tt, thread 2 ready 0, refl, refl),
  );
  tail_last = (λ e. omega arith, tt);
}

last-Apart : Apart (104 ∷ []) (101 ∷ 102 ∷ [])
last-Apart = ((λ e. omega arith, (λ e. omega arith, tt)), tt)

all-Apart : Apart (103 ∷ 104 ∷ []) (101 ∷ 102 ∷ [])
all-Apart = ((λ e. omega arith, (λ e. omega arith, tt)), last-Apart)

last-AllAt : AllAt 0 two_blocked.heap (104 ∷ [])
last-AllAt = ((thread 4 blocked 0, refl, refl), tt)

both-AllAt : AllAt 0 two_blocked.heap (103 ∷ 104 ∷ [])
both-AllAt = ((thread 3 blocked 104, refl, refl), last-AllAt)

worker_mutex_unlock-append_example :
    (s : Workers) × (q : Deque) × (worker_mutex_unlock true 7 two_blocked waited_mutex
      ≡ ok (s, record waited_mutex { available = 0; blocked_threads = some q }))
    × (q.head ≡ 0)
    × IsQueue s.heap (s.mlfq_list 0) (101 ∷ 102 ∷ 103 ∷ 104 ∷ [])
    × ((k : ℕ) → k ≢ 0 → s.mlfq_list k ≡ two_blocked.mlfq_list k)
    × KeepsTcbs two_blocked.heap s.heap
    × (s.current ≡ 101)
worker_mutex_unlock-append_example =
    worker_mutex_unlock-append 7 0 (103 ∷ 104 ∷ []) (101 ∷ 102 ∷ []) two_blocked waited_mutex
      (record { head = 103; tail = 104 }) (λ e. omega arith) (omega arith) refl waiting-IsQueue
      running-IsQueue all-Apart both-AllAt (omega arith)
