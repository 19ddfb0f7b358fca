-- ===== src/Worker/Deque.antt =====
-- The linked queues of project2/code/thread-worker.c: `enqueue`, `enqueue_mutex`, `enqueueExit`
-- and `enqueue_buffer` are one function on their queue, and so are `dequeue_mutex`,
-- `dequeueExit` and `dequeue_buffer`.
pub mod Chain
pub mod Laws
use cs.Prelude.{ℕ, zero, suc, true, false, ◌==◌, if◌then◌else◌, Outcome, ok, out_of_fuel, ◌>>=◌}
use cs.Worker.State.{Heap, Deque, empty_deque, Workers, load, write}

-- `p->next = q`.
unfoldable pub set_next : Heap → ℕ → ℕ → Outcome Heap
set_next h p q = load h p >>= λ n. ok (write h p (record n { next = q }))

-- `while (temp_node->next != NULL) temp_node = temp_node->next`.
unfoldable pub last_node : ℕ → Heap → ℕ → Outcome ℕ
last_node zero h p = out_of_fuel
last_node (suc fuel) h p =
    load h p >>= λ n. elim (n.next == 0) [ true ↦ ok p | false ↦ last_node fuel h n.next ]

unfoldable pub enqueue_mutex : ℕ → Heap → ℕ → Deque → Outcome (Heap × Deque)
enqueue_mutex fuel h new_node q =
    if q.head == 0 then ok (h, record { head = new_node; tail = new_node }) else (do
      last ← last_node fuel h q.head
      h' ← set_next h last new_node
      ok (h', record q { tail = new_node }))

-- The result is 0 on an empty queue.
unfoldable pub dequeue_mutex : Heap → Deque → Outcome (ℕ × Heap × Deque)
dequeue_mutex h q =
    if q.head == 0
    then ok (0, h, q)
    else if q.head == q.tail
    then ok (q.tail, h, empty_deque)
    else (do
      n ← load h q.head
      h' ← set_next h q.head 0
      ok (q.head, h', record q { head = n.next }))

unfoldable pub enqueue_exit : ℕ → Workers → ℕ → Outcome Workers
enqueue_exit fuel s new_node = enqueue_mutex fuel s.heap new_node s.exit_queue >>= λ r.
    ok (record s { heap = r.0; exit_queue = r.1 })

unfoldable pub dequeue_exit : Workers → Outcome (ℕ × Workers)
dequeue_exit s =
    dequeue_mutex s.heap s.exit_queue >>= λ r. ok (r.0, record s { heap = r.1; exit_queue = r.2 })

unfoldable pub enqueue_buffer : ℕ → Workers → ℕ → Outcome Workers
enqueue_buffer fuel s new_node =
    enqueue_mutex fuel s.heap new_node s.buffer >>= λ r. ok (record s { heap = r.0; buffer = r.1 })

unfoldable pub dequeue_buffer : Workers → Outcome (ℕ × Workers)
dequeue_buffer s =
    dequeue_mutex s.heap s.buffer >>= λ r. ok (r.0, record s { heap = r.1; buffer = r.2 })
