-- ===== src/Worker/Psjf/Unlink.antt =====
-- What `dequeuePSJF` does to the queue.
use mathlib.Core.Path.{subst}
use mathlib.Core.Option.{some-injective}
use cs.Prelude.{
  ℕ, zero, suc, ◌≡◌, refl, sym, ap, ◌∙◌, ◌≢◌, false, some, List, ◌∷◌, arith, ◌==◌, ==_refl,
  ==_of_ne, ok, out_of_fuel,
}
use cs.Worker.State.{Node, Heap, Workers, quantum, load, write}
use cs.Worker.Deque.{set_next}
use cs.Worker.Deque.Chain.{Chain, load-some, write-Chain}
use cs.Worker.Psjf.{unlink_second, dequeue_psjf}

unlink_second_spin :
    (fuel : ℕ) (h : Heap) (x e : ℕ) (n m k : Node)
    → load h x ≡ ok n
    → n.next ≢ 0
    → load h n.next ≡ ok m
    → load h e ≡ ok k
    → m.tcb.id ≢ k.tcb.id
    → unlink_second fuel h x e ≡ out_of_fuel
unfolding unlink_second
unlink_second_spin zero h x e n m k ln ne lm lk other = refl
unlink_second_spin (suc fuel) h x e n m k ln ne lm lk other =
    let again = unlink_second_spin fuel h x e n m k ln ne lm lk other in
    let next_ne = ==_of_ne n.next 0 ne in
    let id_ne = ==_of_ne m.tcb.id k.tcb.id other in ground arith

-- Where the queue has two nodes or more and the second one is not that of the thread, the call
-- does not return, however much fuel it gets.
pub dequeue_psjf_spins :
    (fuel : ℕ) (s : Workers) (x y e : ℕ) (xs : List ℕ) (m k : Node)
    → Chain s.heap s.psjf_queue.head (x ∷ y ∷ xs)
    → s.heap y ≡ some m
    → e ≢ 0
    → s.heap e ≡ some k
    → m.tcb.id ≢ k.tcb.id
    → dequeue_psjf fuel s e ≡ out_of_fuel
unfolding dequeue_psjf
dequeue_psjf_spins fuel s x y e xs m k (p, nz, apart, n, found, rest) second ne here other =
    let next_ne : n.next ≢ 0 = λ z. rest.1 (sym rest.0 ∙ z) in
    rw (
      p,
      unlink_second_spin fuel s.heap x e n m k (load-some s.heap x n nz found) next_ne
          (load-some s.heap n.next m next_ne (ap s.heap rest.0 ∙ second))
          (load-some s.heap e k ne here) other,
    )

unlink_second_stop :
    (fuel : ℕ) (h h1 h2 : Heap) (x e : ℕ) (n m : Node)
    → load h x ≡ ok n
    → (n.next == 0) ≡ false
    → load h n.next ≡ ok m
    → load h e ≡ ok m
    → set_next h x m.next ≡ ok h1
    → set_next h1 e 0 ≡ ok h2
    → unlink_second (suc fuel) h x e ≡ ok h2
unfolding unlink_second
unlink_second_stop fuel h h1 h2 x e n m ln ne lm le w1 w2 =
    let same = ==_refl m.tcb.id in ground arith

-- Where the second node of the queue is the thread's, it is unlinked, its own link becomes NULL,
-- the other nodes keep their order, and the timer is set.
pub dequeue_psjf_second :
    (fuel : ℕ) (s : Workers) (x y : ℕ) (xs : List ℕ) (m : Node)
    → Chain s.heap s.psjf_queue.head (x ∷ y ∷ xs)
    → s.heap y ≡ some m
    → (s' : Workers) × (dequeue_psjf (suc fuel) s y ≡ ok s')
      × Chain s'.heap s'.psjf_queue.head (x ∷ xs)
      × (s'.heap y ≡ some (record m { next = 0 }))
      × (s'.timer ≡ quantum)
unfolding dequeue_psjf set_next write
dequeue_psjf_second fuel s x y xs m (p, nz, apart, n, found, rest) second =
    let next_ne : n.next ≢ 0 = λ z. rest.1 (sym rest.0 ∙ z) in
    let h1 = write s.heap x (record n { next = m.next }) in
    let h2 = write h1 y (record m { next = 0 }) in
    let same = some-injective rest.3 m (sym rest.4 ∙ second) in
    let tail = subst (λ (k : Node). Chain s.heap k.next xs) same rest.5 in
    let here = load-some s.heap x n nz found in
    let there : h1 y ≡ some m = rw (==_of_ne x y apart.0, second) in
    let w1 : set_next s.heap x m.next ≡ ok h1 = rw here in
    let w2 : set_next h1 y 0 ≡ ok h2 = rw (load-some h1 y m rest.1 there) in
    let walk =
      unlink_second_stop fuel s.heap h1 h2 x y n m here (==_of_ne n.next 0 next_ne)
        (load-some s.heap n.next m next_ne (ap s.heap rest.0 ∙ second))
        (load-some s.heap y m rest.1 second) w1 w2 in
    let kept = write-Chain s.heap x (record n { next = m.next }) m.next xs apart.1 tail in
    let kept' = write-Chain h1 y (record m { next = 0 }) m.next xs rest.2 kept in
    (
      record s { heap = h2; timer = quantum },
      rw (p, walk),
      (
        p,
        nz,
        apart.1,
        record n { next = m.next },
        rw (==_of_ne y x (λ z. apart.0 (sym z)), ==_refl x),
        kept',
      ),
      rw (==_refl y),
      refl,
    )
