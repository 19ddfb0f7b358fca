-- ===== src/Worker/Mlfq.antt =====
-- The queues of the MLFQ policy: `enqueueMLFQ`, `dequeueMLFQ` and `changePriority` of
-- project2/code/thread-worker.c.
pub mod Levels
pub mod Enqueue
pub mod Queues
use cs.Prelude.{
  ℕ, zero, suc, ◌+◌, ◌-◌, ◌*◌, ltb, leb, ◌==◌, if◌then◌else◌, update, Outcome, ok, fault, ◌>>=◌,
}
use cs.Worker.State.{Heap, Deque, empty_deque, Workers, quantum, total_queues, load, write}
use cs.Worker.Deque.{last_node, set_next}
use cs.Worker.Psjf.{make_current}

-- An access outside of the four queues is a fault.
unfoldable pub queue_at : Workers → ℕ → Outcome Deque
queue_at s level = if ltb level total_queues then ok (s.mlfq_list level) else fault

-- The last loop of `dequeueMLFQ`: the head of the first queue that has one, of `n` from `i`;
-- else what was current.
unfoldable pub first_head : (ℕ → Deque) → ℕ → ℕ → ℕ → ℕ
first_head queues i zero old = old
first_head queues i (suc n) old =
    let rest = first_head queues (i + 1) n old in
    if (queues i).head == 0 then rest else (queues i).head

-- The queue of the current level loses its head; the result is the current node, or 0.
unfoldable pub dequeue_mlfq : Workers → Outcome (ℕ × Workers)
dequeue_mlfq s = do
  cur ← load s.heap s.current
  let level = cur.tcb.priority
  q ← queue_at s level
  if q.head == 0 then ok (0, record s { timer = quantum; current = 0 }) else (do
    q' ←
        if q.tail == q.head
        then ok empty_deque
        else load s.heap q.head >>= (λ n. ok (record q { head = n.next }))
    h ← set_next s.heap s.current 0
    let queues = update s.mlfq_list level q'
    ok (
      s.current,
      record s {
        heap = h;
        mlfq_list = queues;
        timer = 0;
        current = first_head queues 0 total_queues s.current;
      },
    ))

unfoldable pub enqueue_mlfq : ℕ → Workers → ℕ → Outcome Workers
enqueue_mlfq fuel s new_node = do
  s' ← make_current s new_node
  n ← load s'.heap new_node
  let level = n.tcb.priority
  q ← queue_at s' level
  if q.head == 0
      then ok (record s' {
        mlfq_list = update s'.mlfq_list level (record { head = new_node; tail = new_node });
        timer = quantum;
      })
      else (do
        last ← last_node fuel s'.heap q.head
        h ← set_next s'.heap last new_node
        ok (record s' {
          heap = h;
          mlfq_list = update s'.mlfq_list level (record q { tail = new_node });
          timer = quantum;
        }))

-- The level after the time slices so far.
unfoldable pub changed_priority : ℕ → ℕ → ℕ
changed_priority elapsed priority =
    if priority == total_queues - 1
    then priority
    else if leb (2 * (priority + 1) * quantum) elapsed
    then priority + 1
    else priority

unfoldable pub change_priority : Heap → ℕ → Outcome Heap
change_priority h p = load h p >>= λ n.
    let t = n.tcb in
    ok
      (write h p (record n { tcb = record t { priority = changed_priority t.elapsed t.priority } }))
