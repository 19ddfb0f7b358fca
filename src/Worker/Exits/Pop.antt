-- ===== src/Worker/Exits/Pop.antt =====
-- What `pop` takes out of the exit queue.

use cs.Prelude.{
  ℕ, suc, ◌≡◌, refl, sym, ap, ◌∙◌, true, false, none, some, List, [], ◌∷◌, ◌==◌, ==_iff, ==_refl,
  ==_of_ne, ok,
}
use cs.Worker.State.{Node, Heap, Deque, Workers, load, release}
use cs.Worker.Deque.{dequeue_mutex, dequeue_exit}
use cs.Worker.Deque.Chain.{NotIn, Chain, IsQueue, load-some}
use cs.Worker.Deque.Laws.{dequeue_mutex-head}
use cs.Worker.Exits.{find_thread, found_in_exit_queue, pop_selected, pop}
use cs.Worker.Exits.Search.{find_step_hit}

release-Chain :
    (h : Heap) (a p : ℕ) (xs : List ℕ) → NotIn a xs → Chain h p xs → Chain (release h a) p xs
unfolding release
release-Chain h a p [] out c = c
release-Chain h a p (x ∷ xs) (ne, out) (e, nz, apart, n, found, rest) =
    (e, nz, apart, n, rw (==_of_ne a x ne, found), release-Chain h a n.next xs out rest)

pop_steps :
    (fuel : ℕ) (s : Workers) (thread x : ℕ) (h : Heap) (q : Deque)
    → (s.exit_queue.head == 0) ≡ false
    → (x == 0) ≡ false
    → find_thread (suc fuel) s.heap s.exit_queue.head thread ≡ ok x
    → (x == s.exit_queue.head) ≡ true
    → dequeue_mutex s.heap s.exit_queue ≡ ok (x, h, q)
    → pop (suc fuel) s thread ≡ ok (record s { heap = release h x; exit_queue = q })
unfolding pop pop_selected dequeue_exit
pop_steps fuel s thread x h q nz xz found same run =
    rw nz (rw found (rw xz (rw same (rw run refl))))

found_steps :
    (fuel : ℕ) (s : Workers) (thread x : ℕ)
    → find_thread fuel s.heap s.exit_queue.head thread ≡ ok x
    → (x == 0) ≡ false
    → found_in_exit_queue fuel s thread ≡ ok true
unfolding found_in_exit_queue
found_steps fuel s thread x run nz = rw run (rw nz refl)

-- Where the thread is that of the first node of the exit queue, it is found there, and `pop` takes
-- that node out and frees it; the other nodes of the queue keep their order.
pub pop-head :
    (fuel : ℕ) (s : Workers) (thread x : ℕ) (xs : List ℕ) (n : Node)
    → IsQueue s.heap s.exit_queue (x ∷ xs)
    → s.heap x ≡ some n
    → n.tcb.id ≡ thread
    → (s' : Workers) × (found_in_exit_queue (suc fuel) s thread ≡ ok true)
      × (pop (suc fuel) s thread ≡ ok s')
      × IsQueue s'.heap s'.exit_queue xs
      × (s'.heap x ≡ none)
unfolding release
pop-head fuel s thread x xs n queue here id =
    let (h, q, run, queue', keeps, k, there, end, _) =
      dequeue_mutex-head s.heap s.exit_queue x xs queue in
    let (e, nz, apart, first, held, rest) = queue.chain in
    let xz = ==_of_ne x 0 nz in
    let nz0 = ap (λ a. a == 0) e ∙ xz in
    let ln = ap (load s.heap) e ∙ load-some s.heap x n nz here in
    let found =
      find_step_hit fuel s.heap s.exit_queue.head thread n nz0 ln ((==_iff n.tcb.id thread).1 id)
      ∙ ap (λ a. ok a) e in
    (
      record s { heap = release h x; exit_queue = q },
      found_steps (suc fuel) s thread x found xz,
      pop_steps fuel s thread x h q nz0 xz found ((==_iff x s.exit_queue.head).1 (sym e)) run,
      record {
        chain = release-Chain h x q.head xs apart queue'.chain;
        tail_last = queue'.tail_last;
      },
      rw (==_refl x) refl,
    )
