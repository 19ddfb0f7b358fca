-- ===== src/Worker/Tests/Turns.antt =====
-- Three threads of project2/code/thread-worker.c in the last level.
use cs.Prelude.{ℕ, ◌+◌, ◌≡◌, refl, true, none, some, [], ◌∷◌, arith, ◌==◌, if◌then◌else◌, ok}
use cs.Worker.State.{ThreadStatus, running, ready, Node, Heap, empty_deque, Workers, quantum}
use cs.Worker.State.{blocked}
use cs.Worker.Deque.Chain.{NotIn, IsQueue}
use cs.Worker.Schedule.{sched_mlfq}
use cs.Worker.Schedule.Dropped.{sched_mlfq_blocked}
use cs.Prelude.{◌≢◌, ◌<◌}
use cs.Worker.Schedule.Threads.{interrupts}
use cs.Worker.Schedule.Threads.Fairness.{TakesTurns, interrupts_reach}

abbrev thread : ℕ → ThreadStatus → ℕ → Node
thread id status next = record {
  tcb = record {
    id = id;
    context = 100 + id;
    priority = 3;
    priority_psjf = 0;
    stack = true;
    status = status;
    elapsed = 0;
    response_flag = 0;
    start_time = 0;
  };
  next = next;
}

abbrev heap : Heap
heap p =
    if p == 101
    then some (thread 1 running 102)
    else if p == 102
    then some (thread 2 ready 103)
    else if p == 103
    then some (thread 3 ready 0)
    else none

abbrev workers : Workers
workers = record {
  heap = heap;
  psjf_queue = empty_deque;
  mlfq_list = λ j. if j == 3 then record { head = 101; tail = 103 } else empty_deque;
  exit_queue = empty_deque;
  buffer = empty_deque;
  current = 101;
  cpu = 101;
  timer = quantum;
  time_ran = 0;
  tot_cntx_switches = 0;
  num_threads = 3;
  id_incrementer = 4;
}

workers-TakesTurns : TakesTurns workers 101 (102 ∷ 103 ∷ [])
workers-TakesTurns = record {
  is_current = refl;
  code = refl;
  queue = record {
    chain = (
      refl,
      λ e. omega arith,
      (λ e. omega arith, (λ e. omega arith, tt)),
      thread 1 running 102,
      refl,
      (
        refl,
        λ e. omega arith,
        (λ e. omega arith, tt),
        thread 2 ready 103,
        refl,
        (refl, λ e. omega arith, tt, thread 3 ready 0, refl, refl),
      ),
    );
    tail_last = (λ e. omega arith, (λ e. omega arith, tt));
  };
  above = λ j lt. ground arith;
  first = (thread 1 running 102, refl, refl, refl);
  waiting = (
    (thread 2 ready 103, refl, refl, refl, refl),
    ((thread 3 ready 0, refl, refl, refl, refl), tt),
  );
}

interrupts_reach_example :
    (s : Workers) × (interrupts true 3 2 workers ≡ ok s)
    × (s.current ≡ 103)
    × (s.cpu ≡ 103)
    × (n : Node) × (s.heap 103 ≡ some n)
    × (n.tcb.status ≡ running)
interrupts_reach_example =
    interrupts_reach 3 workers 101 (102 ∷ 103 ∷ []) (101 ∷ 102 ∷ []) 103 [] workers-TakesTurns refl
      (omega arith) (omega arith)

-- The thread 1 is current and marked as blocked.
abbrev one_blocked : Workers
one_blocked = record workers {
  heap = λ p. if p == 101 then some (thread 1 blocked 102) else heap p;
}

blocked-IsQueue :
    IsQueue one_blocked.heap (record { head = 101; tail = 103 }) (101 ∷ 102 ∷ 103 ∷ [])
blocked-IsQueue = record {
  chain = (
    refl,
    λ e. omega arith,
    (λ e. omega arith, (λ e. omega arith, tt)),
    thread 1 blocked 102,
    refl,
    (
      refl,
      λ e. omega arith,
      (λ e. omega arith, tt),
      thread 2 ready 103,
      refl,
      (refl, λ e. omega arith, tt, thread 3 ready 0, refl, refl),
    ),
  );
  tail_last = (λ e. omega arith, (λ e. omega arith, tt));
}

sched_mlfq_blocked_example :
    (s : Workers) × (sched_mlfq 5 one_blocked ≡ ok s)
    × (s.current ≡ 102)
    × (s.cpu ≡ 102)
    × IsQueue s.heap (s.mlfq_list 3) (102 ∷ 103 ∷ [])
    × NotIn 101 (102 ∷ 103 ∷ [])
    × ((j : ℕ) → j ≢ 3 → s.mlfq_list j ≡ one_blocked.mlfq_list j)
sched_mlfq_blocked_example =
    sched_mlfq_blocked 5 one_blocked 101 102 (103 ∷ []) (thread 1 blocked 102) (thread 2 ready 103)
      refl refl refl (omega arith) blocked-IsQueue empty_above refl refl (omega arith)
  where
    empty_above : (j : ℕ) → j < 3 → (one_blocked.mlfq_list j).head ≡ 0
    empty_above j lt = ground arith
