-- ===== src/Worker/Psjf.antt =====
-- The queue of the PSJF policy: `enqueuePSJF`, `setCurrentlyRunningPSJF` and `dequeuePSJF` of
-- project2/code/thread-worker.c. The calls that set the timer are kept by its last value.
pub mod Select
pub mod Unlink
use cs.Prelude.{
  ℕ, zero, suc, Bool, true, false, ◌&&◌, ltb, ◌==◌, if◌then◌else◌, Outcome, ok, out_of_fuel, ◌>>=◌,
}
use cs.Worker.State.{
  Heap, Workers, ThreadStatus, running, exitted, ready, blocked, quantum, load, write,
}
use cs.Worker.Deque.{last_node, set_next}

abbrev pub is_ready : ThreadStatus → Bool
is_ready ready = true
is_ready _ = false

abbrev pub is_running : ThreadStatus → Bool
is_running running = true
is_running _ = false

abbrev pub is_exitted : ThreadStatus → Bool
is_exitted exitted = true
is_exitted _ = false

abbrev pub is_blocked : ThreadStatus → Bool
is_blocked blocked = true
is_blocked _ = false

-- `p->thread_control_block->status = status`.
unfoldable pub set_status : Heap → ℕ → ThreadStatus → Outcome Heap
set_status h p status = load h p >>= λ n.
    let t = n.tcb in ok (write h p (record n { tcb = record t { status = status } }))

-- A new thread runs at once where none is current.
unfoldable pub make_current : Workers → ℕ → Outcome Workers
make_current s new_node =
    if s.current == 0
    then set_status s.heap new_node running
      >>= (λ h. ok (record s { current = new_node; heap = h }))
    else ok s

-- On an empty queue the function returns with the timer off.
unfoldable pub enqueue_psjf : ℕ → Workers → ℕ → Outcome Workers
enqueue_psjf fuel s new_node = do
  s' ← make_current s new_node
  let q = s'.psjf_queue
  if q.head == 0
      then ok (record s' { psjf_queue = record { head = new_node; tail = new_node }; timer = 0 })
      else (do
        last ← last_node fuel s'.heap q.head
        h ← set_next s'.heap last new_node
        ok (record s' { heap = h; psjf_queue = record q { tail = new_node }; timer = quantum }))

-- The loop of `setCurrentlyRunningPSJF` from the node `p`, with the least priority so far.
unfoldable pub least_ready : ℕ → Heap → ℕ → ℕ → ℕ → Outcome ℕ
least_ready zero h p lowest next_thread = out_of_fuel
least_ready (suc fuel) h p lowest next_thread = elim (p == 0) [
  | true ↦ ok next_thread
  | false ↦ load h p >>= λ n. elim (ltb n.tcb.priority_psjf lowest && is_ready n.tcb.status) [
    | true ↦ least_ready fuel h n.next n.tcb.priority_psjf p
    | false ↦ least_ready fuel h n.next lowest next_thread
  ]
]

unfoldable pub set_currently_running_psjf : ℕ → Workers → Outcome Workers
set_currently_running_psjf fuel s =
    let head = s.psjf_queue.head in
    if head == 0 then ok s else (do
      n ← load s.heap head
      p ← least_ready fuel s.heap head n.tcb.priority_psjf head
      ok (record s { current = p }))

-- The loop of `dequeuePSJF`: `temp_node` is never moved on.
unfoldable pub unlink_second : ℕ → Heap → ℕ → ℕ → Outcome Heap
unlink_second zero h temp exit_node = out_of_fuel
unlink_second (suc fuel) h temp exit_node = load h temp >>= λ n. elim (n.next == 0) [
  | true ↦ ok h
  | false ↦ load h n.next >>= λ m. load h exit_node >>= λ x. elim (m.tcb.id == x.tcb.id) [
    | true ↦ set_next h temp m.next >>= (λ h'. set_next h' exit_node 0)
    | false ↦ unlink_second fuel h temp exit_node
  ]
]

unfoldable pub dequeue_psjf : ℕ → Workers → ℕ → Outcome Workers
dequeue_psjf fuel s exit_node = unlink_second fuel s.heap s.psjf_queue.head exit_node >>= λ h.
    ok (record s { heap = h; timer = quantum })
