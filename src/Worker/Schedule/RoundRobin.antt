-- ===== src/Worker/Schedule/RoundRobin.antt =====
-- A round of the MLFQ scheduler on a running thread that stays at its level.
use mathlib.Core.Path.{subst}
use cs.Prelude.{
  ℕ, suc, ◌+◌, ◌≤◌, ◌<◌, ◌≡◌, refl, sym, ap, ◌∙◌, ◌≢◌, false, some, List, [], ◌∷◌, ◌++◌, arith, leb,
  ==_refl, ==_of_ne, ok,
}
use cs.Prelude.{length}
use cs.Worker.State.{Node, Tcb, Heap, Workers, running, ready, quantum, reset_period, load, write}
use cs.Worker.Deque.Chain.{IsQueue, load-some, write-Chain}
use cs.Worker.Mlfq.{dequeue_mlfq, enqueue_mlfq, changed_priority, change_priority}
use cs.Worker.Mlfq.Enqueue.{enqueue_mlfq-append}
use cs.Worker.Deque.Laws.{kept_tcb}
use cs.Worker.Mlfq.Queues.{left_for}
use cs.Worker.Schedule.{retire_mlfq, period_mlfq, age_running, demote_mlfq, sched_mlfq}
use cs.Worker.Schedule.Preempt.{started, start_current_lem, set_context_lem, retcb-Chain}

-- The thread of the node `n`, ready and a slice later.
abbrev pub paused : Node → Node
paused n =
    let t = n.tcb in record n { tcb = record t { status = ready; elapsed = t.elapsed + quantum } }

-- The same at its new level.
abbrev pub aged : Node → Node
aged n =
    let t = (paused n).tcb in
    record n { tcb = record t { priority = changed_priority t.elapsed t.priority } }

abbrev age_heap : Heap → ℕ → Node → Heap
age_heap h x n = write (write h x (paused n)) x (aged n)

retire_none :
    (fuel : ℕ) (s : Workers) (n : Node)
    → load s.heap s.current ≡ ok n
    → n.tcb.status ≡ running
    → retire_mlfq fuel s ≡ ok s
unfolding retire_mlfq
retire_none fuel s n ln st = rw ln (rw st refl)

period_none :
    (fuel : ℕ) (s : Workers) (n : Node)
    → load s.heap s.current ≡ ok n
    → n.tcb.status ≡ running
    → leb reset_period s.time_ran ≡ false
    → period_mlfq fuel s ≡ ok s
unfolding period_mlfq
period_none fuel s n ln st early = rw ln (rw st (rw early refl))

wrote : (h : Heap) (x : ℕ) (n : Node) → write h x n x ≡ some n
unfolding write
wrote h x n = rw (==_refl x) refl

unwritten : (h : Heap) (x y : ℕ) (n : Node) → x ≢ y → write h x n y ≡ h y
unfolding write
unwritten h x y n ne = rw (==_of_ne x y ne) refl

age_running_steps :
    (fuel : ℕ) (s s' : Workers) (x : ℕ) (n : Node)
    → x ≢ 0
    → load s.heap x ≡ ok n
    → enqueue_mlfq fuel (record s { heap = age_heap s.heap x n }) x ≡ ok s'
    → age_running fuel s x ≡ ok s'
unfolding age_running change_priority
age_running_steps fuel s s' x n nz ln run =
    let h1 = write s.heap x (paused n) in
    rw ln (rw (load-some h1 x (paused n) nz (wrote s.heap x (paused n))) run)

demote_mlfq-running :
    (fuel : ℕ) (s s1 s2 : Workers) (x : ℕ) (n n1 : Node)
    → load s.heap s.current ≡ ok n
    → n.tcb.status ≡ running
    → dequeue_mlfq s ≡ ok (x, s1)
    → x ≢ 0
    → load s1.heap x ≡ ok n1
    → enqueue_mlfq fuel (record s1 { heap = age_heap s1.heap x n1 }) x ≡ ok s2
    → demote_mlfq fuel s ≡ ok s2
unfolding demote_mlfq
demote_mlfq-running fuel s s1 s2 x n n1 ln st left nz l1 run =
    rw ln (rw st (rw left (age_running_steps fuel s1 s2 x n1 nz l1 run)))

-- The state that a round leaves, with the node `k` current.
abbrev pub resumed_next : Workers → Node → Workers
resumed_next s k = record s {
  heap = write s.heap s.current (started k);
  cpu = k.tcb.context;
  timer = quantum;
  time_ran = s.time_ran + quantum;
  tot_cntx_switches = s.tot_cntx_switches + 1;
}

sched_mlfq_steps :
    (fuel : ℕ) (s s2 : Workers) (n k : Node)
    → load s.heap s.current ≡ ok n
    → n.tcb.status ≡ running
    → leb reset_period s.time_ran ≡ false
    → demote_mlfq fuel (record s { timer = 0 }) ≡ ok s2
    → s2.current ≢ 0
    → s2.heap s2.current ≡ some k
    → sched_mlfq fuel s ≡ ok (resumed_next s2 k)
unfolding sched_mlfq
sched_mlfq_steps fuel s s2 n k ln st early demoted nz there =
    let s0 = record s { timer = 0 } in
    let s3 = record s2 { time_ran = s2.time_ran + quantum } in
    let s4 = record s3 {
      heap = write s2.heap s2.current (started k);
      timer = quantum;
      tot_cntx_switches = s2.tot_cntx_switches + 1;
    } in
    rw (retire_none fuel s0 n ln st) (
      rw (period_none fuel s0 n ln st early) (
        rw demoted (
          rw (start_current_lem s3 k (load-some s2.heap s2.current k nz there))
            (rw (set_context_lem s4 s2.heap s2.current (started k) nz refl refl) refl))))

-- What a round leaves of the threads and the queues: `x` waits, `y` runs, the other threads and
-- levels stay.
pub record Rotated (s s' : Workers) (x y : ℕ) (n k : Node) : Type 0 where
  pub waits : (m : Node) × (s'.heap x ≡ some m) × (m.tcb ≡ (aged n).tcb)
  pub runs : (m : Node) × (s'.heap y ≡ some m) × (m.tcb ≡ (started k).tcb)
  pub others :
      (z : ℕ) (m : Node)
      → x ≢ z
      → y ≢ z
      → s.heap z ≡ some m
      → (m' : Node) × (s'.heap z ≡ some m') × (m'.tcb ≡ m.tcb)
  pub levels : (j : ℕ) → j ≢ n.tcb.priority → s'.mlfq_list j ≡ s.mlfq_list j
  pub later : s'.time_ran ≡ s.time_ran + quantum

-- A round of the MLFQ scheduler within the reset period: the running thread is at the head of the
-- first queue that has one, another thread is behind it, and the running thread stays at its
-- level. It is made ready and goes behind the queue, whose other threads keep their order, and
-- the thread that was second becomes current and its saved code goes on, with the timer set. Only
-- the control blocks of these two change, and no other level, and the time so far is a slice more.
pub sched_mlfq_round_robin :
    (fuel : ℕ) (s : Workers) (x y : ℕ) (ys : List ℕ) (n k : Node)
    → s.current ≡ x
    → s.heap x ≡ some n
    → n.tcb.status ≡ running
    → n.tcb.priority < 4
    → changed_priority (n.tcb.elapsed + quantum) n.tcb.priority ≡ n.tcb.priority
    → IsQueue s.heap (s.mlfq_list n.tcb.priority) (x ∷ y ∷ ys)
    → ((j : ℕ) → j < n.tcb.priority → (s.mlfq_list j).head ≡ 0)
    → s.heap y ≡ some k
    → s.time_ran < reset_period
    → suc (length ys) ≤ fuel
    → (s' : Workers) × (sched_mlfq fuel s ≡ ok s')
      × IsQueue s'.heap (s'.mlfq_list n.tcb.priority) (y ∷ ys ++ x ∷ [])
      × (s'.current ≡ y)
      × (s'.cpu ≡ k.tcb.context)
      × (s'.timer ≡ quantum)
      × Rotated s s' x y n k
sched_mlfq_round_robin fuel s x y ys n k cur here st lt same queue above yk early f =
    let s0 = record s { timer = 0 } in
    let level = n.tcb.priority in
    let (s1, left, heap1, cpu1, time1, cur1, queue1, others1) =
      left_for s0 x y ys n cur here lt queue above in
    let xz = queue.chain.1 in
    let out = queue.chain.2 in
    let n1 = record n { next = 0 } in
    let l1 : s1.heap x ≡ some n1 = ap (λ h. h x) heap1 ∙ wrote s.heap x n1 in
    let h = write s1.heap x (paused n1) in
    let h2 = age_heap s1.heap x n1 in
    let queue2 : IsQueue h2 (s1.mlfq_list level) (y ∷ ys) = record {
      chain =
          write-Chain h x (aged n1) (s1.mlfq_list level).head (y ∷ ys) out
            (write-Chain s1.heap x (paused n1) (s1.mlfq_list level).head (y ∷ ys) out queue1.chain);
      tail_last = queue1.tail_last;
    } in
    let yz : y ≢ 0 = queue.chain.5.1 in
    let (s2, run, queue3, others2, keeps, cur2, timer2, time2, _) =
      enqueue_mlfq-append fuel (record s1 { heap = h2 }) (y ∷ ys) x (aged n1)
        (λ z. yz (sym cur1 ∙ z)) xz (wrote h x (aged n1)) refl (subst (λ p. p < 4) (sym same) lt)
        (subst (λ p. IsQueue h2 (s1.mlfq_list p) (y ∷ ys)) (sym same) queue2) out f in
    let y2 : h2 y ≡ some k =
      unwritten h x y (aged n1) out.0
      ∙ unwritten s1.heap x y (paused n1) out.0
      ∙ ap (λ h'. h' y) heap1
      ∙ unwritten s.heap x y n1 out.0
      ∙ yk in
    let (k2, yk2, tcb) = kept_tcb h2 s2.heap y k y2 keeps in
    let now = cur2 ∙ cur1 in
    let there = ap s2.heap now ∙ yk2 in
    let ln = ap (load s.heap) cur ∙ load-some s.heap x n xz here in
    let queue4 = subst (λ p. IsQueue s2.heap (s2.mlfq_list p) (y ∷ ys ++ x ∷ [])) same queue3 in
    (
      resumed_next s2 k2,
      sched_mlfq_steps fuel s s2 n k2 ln st (on_time s.time_ran early)
          (demote_mlfq-running fuel s0 s1 s2 x n n1 ln st left xz (load-some s1.heap x n1 xz l1)
            run)
          (λ z. yz (sym now ∙ z)) there,
      record {
        chain =
            retcb-Chain s2.heap s2.current k2 (started k2).tcb (s2.mlfq_list level).head
              (y ∷ ys ++ x ∷ []) there queue4.chain;
        tail_last = queue4.tail_last;
      },
      now,
      ap (λ (t : Tcb). t.context) tcb,
      refl,
      record {
        waits =
            let (m, xm, same_tcb) = kept_tcb h2 s2.heap x (aged n1) (wrote h x (aged n1)) keeps in
            (m, kept_started s2 k2 x (λ z. out.0 (sym (sym now ∙ z))) ∙ xm, same_tcb);
        runs = (
          started k2,
          ap (write s2.heap s2.current (started k2)) (sym now)
              ∙ wrote s2.heap s2.current (started k2),
          ap restarted tcb,
        );
        others = λ z m nx ny zm.
            let z2 : h2 z ≡ some m =
              unwritten h x z (aged n1) nx
              ∙ unwritten s1.heap x z (paused n1) nx
              ∙ ap (λ h'. h' z) heap1
              ∙ unwritten s.heap x z n1 nx
              ∙ zm in
            let (m', zm', same_tcb) = kept_tcb h2 s2.heap z m z2 keeps in
            (m', kept_started s2 k2 z (λ e. ny (sym now ∙ e)) ∙ zm', same_tcb);
        levels = λ j ne. others2 j (λ e. ne (e ∙ same)) ∙ others1 j ne;
        later = ap (λ (t : ℕ). t + quantum) (time2 ∙ time1);
      },
    )
  where
    restarted : Tcb → Tcb
    restarted t = record t { response_flag = 1; status = running }

    kept_started :
        (s : Workers) (k : Node) (z : ℕ)
        → s.current ≢ z
        → write s.heap s.current (started k) z ≡ s.heap z
    kept_started s k z ne = unwritten s.heap s.current z (started k) ne

    on_time : (t : ℕ) → t < reset_period → leb reset_period t ≡ false
    on_time t l = ground arith
