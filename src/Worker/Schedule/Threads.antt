-- ===== src/Worker/Schedule/Threads.antt =====
-- The calls of project2/code/thread-worker.c on threads: `worker_create`, `worker_yield`,
-- `handle`, `worker_exit` and `worker_join`.
pub mod Fairness
use cs.Prelude.{
  zero, suc, ℕ, zero, suc, ◌+◌, Bool, true, false, ◌&&◌, ◌==◌, if◌then◌else◌, Outcome, ok, exits,
  ◌>>=◌,
}
use cs.Worker.State.{Workers, Node, empty_deque, exitted, ready, quantum, total_queues, load, write}
use cs.Worker.Psjf.{is_exitted, enqueue_psjf}
use cs.Worker.Mlfq.{enqueue_mlfq}
use cs.Worker.Exits.{find_thread, found_in_exit_queue, pop}
use cs.Worker.Schedule.{switch}

-- What the system calls of `worker_create` give: whether each `getcontext` succeeds, the nodes
-- that `malloc` returns and the time of `clock`.
pub record Calls : Type 0 where
  pub scheduler_context : Bool
  pub main_context : Bool
  pub thread_context : Bool
  pub main_node : ℕ
  pub thread_node : ℕ
  pub now : ℕ

-- A new control block, in a node of its own: its context starts the thread's code.
unfoldable pub new_node : ℕ → ℕ → ℕ → Node
new_node id node now = record {
  tcb = record {
    id = id;
    context = node;
    priority = 0;
    priority_psjf = 0;
    stack = true;
    status = ready;
    elapsed = 0;
    response_flag = 0;
    start_time = now;
  };
  next = 0;
}

unfoldable pub enqueue_thread : Bool → ℕ → Workers → ℕ → Outcome Workers
enqueue_thread use_mlfq fuel s node =
    if use_mlfq then enqueue_mlfq fuel s node else enqueue_psjf fuel s node

-- The id, which `*thread` gets, the return value and the state. The id is used up and stored
-- before the context is made.
unfoldable pub create_thread : Bool → ℕ → Workers → Calls → Outcome (ℕ × ℕ × Workers)
create_thread use_mlfq fuel s calls =
    let id = s.id_incrementer in
    let s1 = record s { id_incrementer = id + 1 } in
    if calls.thread_context
    then (do
      let h = write s1.heap calls.thread_node (new_node id calls.thread_node calls.now)
      s2 ← enqueue_thread use_mlfq fuel (record s1 { heap = h }) calls.thread_node
      ok (id, 0, record s2 { num_threads = s2.num_threads + 1 }))
    else ok (id, 1, s1)

-- The first call makes the queues and a thread for `main`.
unfoldable pub create_main : Bool → ℕ → Workers → Calls → Outcome Workers
create_main use_mlfq fuel s calls =
    let id = s.id_incrementer in
    if calls.scheduler_context && calls.main_context
    then enqueue_thread use_mlfq fuel
        (record s {
          mlfq_list = λ _. empty_deque;
          id_incrementer = id + 1;
          heap = write s.heap calls.main_node (new_node id calls.main_node calls.now);
        })
        calls.main_node
    else exits 1

-- The timer is started where the call does not return early.
unfoldable pub worker_create : Bool → ℕ → Workers → Calls → Outcome (ℕ × ℕ × Workers)
worker_create use_mlfq fuel s calls =
    if s.id_incrementer == 1
    then (do
      s1 ← create_main use_mlfq fuel s calls
      r ← create_thread use_mlfq fuel s1 calls
      let (id, result, s2) = r
      ok (id, result, if result == 0 then record s2 { timer = quantum } else s2))
    else create_thread use_mlfq fuel s calls

unfoldable pub worker_yield : Bool → ℕ → Workers → Outcome Workers
worker_yield use_mlfq fuel s = switch use_mlfq fuel s

-- `handle` at `n` timer interrupts, one after the other.
unfoldable pub interrupts : Bool → ℕ → ℕ → Workers → Outcome Workers
interrupts use_mlfq fuel zero s = ok s
interrupts use_mlfq fuel (suc n) s =
    worker_yield use_mlfq fuel s >>= λ s'. interrupts use_mlfq fuel n s'

unfoldable pub worker_exit : Bool → ℕ → Workers → Outcome Workers
worker_exit use_mlfq fuel s = load s.heap s.current >>= λ n.
    let t = n.tcb in
    let h =
      write s.heap s.current (record n { tcb = record t { stack = false; status = exitted } }) in
    switch use_mlfq fuel (record s { heap = h })

-- What one round of `worker_join` comes to: it returns, or it goes on looking for the thread, or
-- it spins until the thread of a node exits. Interrupts change the state between two rounds.
pub data Joining : Type 0 where
  joined : Joining
  searching : Joining
  waiting : ℕ → Joining

-- The search of the queues of MLFQ, `n` of them from `i`.
unfoldable pub find_in_queues : ℕ → Workers → ℕ → ℕ → ℕ → Outcome ℕ
find_in_queues fuel s i zero thread = ok 0
find_in_queues fuel s i (suc n) thread =
    find_thread fuel s.heap (s.mlfq_list i).head thread >>= λ p.
    let rest = find_in_queues fuel s (i + 1) n thread in if p == 0 then rest else ok p

-- The loop on the status of the thread that is joined.
unfoldable pub join_poll : ℕ → Workers → ℕ → ℕ → Outcome (Joining × Workers)
join_poll fuel s node thread = load s.heap node >>= λ n.
    if is_exitted n.tcb.status
    then pop fuel s thread >>= (λ s'. ok (joined, s'))
    else ok (waiting node, s)

-- The search for the thread in the queues. The control block of NULL is read where PSJF does
-- not find it.
unfoldable pub join_search : Bool → ℕ → Workers → ℕ → Outcome (Joining × Workers)
join_search use_mlfq fuel s thread =
    if use_mlfq
    then find_in_queues fuel s 0 total_queues thread
      >>= (λ p. if p == 0 then ok (searching, s) else join_poll fuel s p thread)
    else find_thread fuel s.heap s.psjf_queue.head thread >>= (λ p. join_poll fuel s p thread)

unfoldable pub worker_join : Bool → ℕ → Workers → ℕ → Outcome (Joining × Workers)
worker_join use_mlfq fuel s thread = found_in_exit_queue fuel s thread >>= λ found.
    if found
    then pop fuel s thread >>= (λ s'. ok (joined, s'))
    else join_search use_mlfq fuel s thread
