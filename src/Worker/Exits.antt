-- ===== src/Worker/Exits.antt =====
-- The queue of threads that have exited: `found_in_exit_queue` and `pop` of
-- project2/code/thread-worker.c.
pub mod Search
pub mod Pop
use cs.Prelude.{
  ℕ, zero, suc, Bool, true, false, ◌==◌, if◌then◌else◌, Outcome, ok, exits, out_of_fuel, ◌>>=◌,
}
use cs.Worker.State.{Heap, Workers, load, release}
use cs.Worker.Deque.{set_next, dequeue_exit}

-- The first node from `p` on whose thread is `thread`, or 0.
unfoldable pub find_thread : ℕ → Heap → ℕ → ℕ → Outcome ℕ
find_thread zero h p thread = out_of_fuel
find_thread (suc fuel) h p thread = elim (p == 0) [
  | true ↦ ok 0
  | false ↦ load h p >>= λ n. elim (n.tcb.id == thread) [
    | true ↦ ok p
    | false ↦ find_thread fuel h n.next thread
  ]
]

unfoldable pub found_in_exit_queue : ℕ → Workers → ℕ → Outcome Bool
found_in_exit_queue fuel s thread =
    find_thread fuel s.heap s.exit_queue.head thread >>= λ p. ok (if p == 0 then false else true)

-- `while (before->next != selected_thread) before = before->next`.
unfoldable pub find_before : ℕ → Heap → ℕ → ℕ → Outcome ℕ
find_before zero h before selected = out_of_fuel
find_before (suc fuel) h before selected = load h before >>= λ n. elim (n.next == selected) [
  | true ↦ ok before
  | false ↦ find_before fuel h n.next selected
]

-- The branches of `pop` on a selected thread.
unfoldable pub pop_selected : ℕ → Workers → ℕ → Outcome Workers
pop_selected fuel s selected =
    if selected == s.exit_queue.head
    then (do r ← dequeue_exit s; let (node, s') = r; ok (record s' { heap = release s'.heap node }))
    else (do
      n ← load s.heap selected
      before ← find_before fuel s.heap s.exit_queue.head selected
      h ← set_next s.heap before n.next
      ok (record s { heap = release h selected }))

unfoldable pub pop : ℕ → Workers → ℕ → Outcome Workers
pop fuel s thread = if s.exit_queue.head == 0 then exits 1 else (do
  selected ← find_thread fuel s.heap s.exit_queue.head thread
  if selected == 0 then exits 1 else pop_selected fuel s selected)
