-- ===== src/Worker/Schedule/Preempt.antt =====
-- A round of the PSJF scheduler on a running thread: `sched_psjf`.
use mathlib.Core.Path.{subst}
use mathlib.Core.Option.{some-injective}
use cs.Prelude.{
  length, ℕ, suc, ◌+◌, ◌<◌, ◌≡◌, refl, sym, ap, ◌∙◌, ◌≢◌, inl, inr, some, List, [], ◌∷◌, ◌==◌,
  if◌then◌else◌, ==_iff, ==_refl, Bool-cases, ok,
}
use cs.Worker.State.{Node, Tcb, Heap, Workers, running, ready, quantum, load, write}
use cs.Worker.Deque.Chain.{Chain, load-some}
use cs.Worker.Psjf.{is_running, set_currently_running_psjf}
use cs.Worker.Psjf.Select.{In, Least, set_currently_running_psjf-Least}
use cs.Worker.Schedule.{retire_psjf, demote_psjf, start_current, set_context, sched_psjf}

-- A new control block in a node leaves a chain alone.
pub retcb-Chain :
    (h : Heap) (a : ℕ) (n : Node) (t : Tcb) (p : ℕ) (xs : List ℕ)
    → h a ≡ some n
    → Chain h p xs
    → Chain (write h a (record n { tcb = t })) p xs
unfolding write
retcb-Chain h a n t p [] here c = c
retcb-Chain h a n t p (x ∷ xs) here (e, nz, apart, m, found, rest) =
    let tail = retcb-Chain h a n t m.next xs here rest in
    elim (Bool-cases (a == x)) [
      | inl same ↦
          let n_m = some-injective n m (sym here ∙ ap h ((==_iff a x).0 same) ∙ found) in
          (
            e,
            nz,
            apart,
            record n { tcb = t },
            rw same refl,
            subst (λ (k : Node). Chain (write h a (record n { tcb = t })) k.next xs) (sym n_m) tail,
          )
      | inr other ↦ (e, nz, apart, m, rw (other, found), tail)
    ]

-- The thread of the node `n`, ready again and one slice longer.
abbrev pub demoted : Node → Node
demoted n =
    let t = n.tcb in
    record n { tcb = record t { status = ready; priority_psjf = t.priority_psjf + 1 } }

-- The thread of the node `n`, running and with its response flag set.
abbrev pub started : Node → Node
started n = let t = n.tcb in record n { tcb = record t { response_flag = 1; status = running } }

retire_psjf_none :
    (fuel : ℕ) (s : Workers) (n : Node)
    → load s.heap s.current ≡ ok n
    → n.tcb.status ≡ running
    → retire_psjf fuel s ≡ ok s
unfolding retire_psjf
retire_psjf_none fuel s n ln run = rw ln (rw run refl)

demote_psjf-running :
    (s : Workers) (n : Node)
    → load s.heap s.current ≡ ok n
    → n.tcb.status ≡ running
    → demote_psjf s ≡ ok (record s { heap = write s.heap s.current (demoted n) })
unfolding demote_psjf
demote_psjf-running s n ln run = rw ln (
    ap
      (λ st.
        if is_running st then ok (record s { heap = write s.heap s.current (demoted n) }) else ok s)
      run)

pub start_current_lem :
    (s : Workers) (m : Node)
    → load s.heap s.current ≡ ok m
    → start_current s
      ≡ ok (record s {
        heap = write s.heap s.current (started m);
        timer = quantum;
        tot_cntx_switches = s.tot_cntx_switches + 1;
      })
unfolding start_current
start_current_lem s m lm = rw lm refl

pub set_context_lem :
    (s : Workers) (h : Heap) (c : ℕ) (m : Node)
    → c ≢ 0
    → s.heap ≡ write h c m
    → s.current ≡ c
    → set_context s ≡ ok (record s { cpu = m.tcb.context })
unfolding set_context write
set_context_lem s h c m nz heap cur =
    let there : s.heap s.current ≡ some m = rw (heap, cur, ==_refl c) in
    rw (load-some s.heap s.current m (λ z. nz (sym cur ∙ z)) there) refl

-- The state that a round leaves.
abbrev pub preempted : Workers → Heap → ℕ → Node → Workers
preempted s h r m = record s {
  heap = write h r (started m);
  current = r;
  cpu = m.tcb.context;
  timer = quantum;
  tot_cntx_switches = s.tot_cntx_switches + 1;
}

sched_psjf_steps :
    (fuel : ℕ) (s : Workers) (r : ℕ) (n m : Node)
    → load s.heap s.current ≡ ok n
    → n.tcb.status ≡ running
    → r ≢ 0
    → write s.heap s.current (demoted n) r ≡ some m
    → set_currently_running_psjf fuel
        (record s { timer = 0; heap = write s.heap s.current (demoted n) })
      ≡ ok (record s { timer = 0; heap = write s.heap s.current (demoted n); current = r })
    → sched_psjf fuel s ≡ ok (preempted s (write s.heap s.current (demoted n)) r m)
unfolding sched_psjf
sched_psjf_steps fuel s r n m ln run rz there chosen =
    let h = write s.heap s.current (demoted n) in
    let s0 = record s { timer = 0 } in
    let s3 = record s { timer = 0; heap = h; current = r } in
    let s4 = record s3 {
      heap = write h r (started m);
      timer = quantum;
      tot_cntx_switches = s.tot_cntx_switches + 1;
    } in
    rw (retire_psjf_none fuel s0 n ln run) (
      rw (demote_psjf-running s0 n ln run) (
        rw chosen (
          rw (start_current_lem s3 m (load-some h r m rz there))
            (rw (set_context_lem s4 h r (started m) rz refl refl) refl))))

Chain-In :
    (h : Heap) (p r : ℕ) (xs : List ℕ)
    → Chain h p xs
    → In r xs
    → (r ≢ 0) × (n : Node) × (h r ≡ some n)
Chain-In h p r [] c i = absurd i
Chain-In h p r (x ∷ xs) (e, nz, apart, n, found, rest) (inl same) =
    ((λ z. nz (sym same ∙ z)), n, ap h same ∙ found)
Chain-In h p r (x ∷ xs) (e, nz, apart, n, found, rest) (inr more) = Chain-In h n.next r xs rest more

-- A round of the scheduler with a running thread current, on a queue of one node or more. That
-- thread is made ready and its job counts as one slice longer. The next thread is the one at the
-- head, where no ready thread has a lower priority, or else a ready one of the lowest priority.
-- It becomes current and running, the code of its saved context goes on, and the timer is set.
pub sched_psjf-Least :
    (fuel : ℕ) (s : Workers) (x : ℕ) (xs : List ℕ) (n : Node)
    → s.current ≢ 0
    → s.heap s.current ≡ some n
    → n.tcb.status ≡ running
    → Chain s.heap s.psjf_queue.head (x ∷ xs)
    → suc (length xs) < fuel
    → (r : ℕ) × (m : Node) × (head : Node) × (sched_psjf fuel s
        ≡ ok (preempted s (write s.heap s.current (demoted n)) r m))
      × (write s.heap s.current (demoted n) r ≡ some m)
      × (write s.heap s.current (demoted n) x ≡ some head)
      × Least (write s.heap s.current (demoted n)) (x ∷ xs) x head.tcb.priority_psjf r
sched_psjf-Least fuel s x xs n cz here run c f =
    let h = write s.heap s.current (demoted n) in
    let c' = retcb-Chain s.heap s.current n (demoted n).tcb s.psjf_queue.head (x ∷ xs) here c in
    let s0 = record s { timer = 0; heap = h } in
    let (r, chosen, least) = set_currently_running_psjf-Least fuel s0 x xs c'.3 c' c'.4 f in
    let is_in : In r (x ∷ xs) = elim least.choice [
      | inl first ↦ inl first.0
      | inr other ↦ other.0
    ] in
    let (rz, m, there) = Chain-In h s.psjf_queue.head r (x ∷ xs) c' is_in in
    (
      r,
      m,
      c'.3,
      sched_psjf_steps fuel s r n m (load-some s.heap s.current n cz here) run rz there chosen,
      there,
      c'.4,
      least,
    )
