-- ===== src/Worker/Schedule/Dropped.antt =====
-- A round of the MLFQ scheduler where the current thread is marked as blocked.
use cs.Prelude.{
  ℕ, ◌+◌, ◌<◌, ◌≡◌, refl, sym, ap, ◌∙◌, ◌≢◌, false, some, List, ◌∷◌, arith, leb, ==_of_ne, ok,
}
use cs.Worker.State.{Node, Workers, ready, blocked, quantum, reset_period, load, write}
use cs.Worker.Deque.Chain.{NotIn, IsQueue, load-some}
use cs.Worker.Mlfq.{dequeue_mlfq}
use cs.Worker.Mlfq.Queues.{left_for}
use cs.Worker.Schedule.{retire_mlfq, period_mlfq, demote_mlfq, sched_mlfq}
use cs.Worker.Schedule.Preempt.{started, start_current_lem, set_context_lem, retcb-Chain}

retire_blocked :
    (fuel : ℕ) (s : Workers) (n : Node)
    → load s.heap s.current ≡ ok n
    → n.tcb.status ≡ blocked
    → retire_mlfq fuel s ≡ ok s
unfolding retire_mlfq
retire_blocked fuel s n ln st = rw ln (rw st refl)

period_blocked :
    (fuel x : ℕ) (s s1 : Workers) (n : Node)
    → load s.heap s.current ≡ ok n
    → n.tcb.status ≡ blocked
    → leb reset_period s.time_ran ≡ false
    → dequeue_mlfq s ≡ ok (x, s1)
    → period_mlfq fuel s ≡ ok s1
unfolding period_mlfq
period_blocked fuel x s s1 n ln st early left = rw ln (rw st (rw early (rw left refl)))

demote_ready :
    (fuel : ℕ) (s : Workers) (n : Node)
    → load s.heap s.current ≡ ok n
    → n.tcb.status ≡ ready
    → demote_mlfq fuel s ≡ ok s
unfolding demote_mlfq
demote_ready fuel s n ln st = rw ln (rw st refl)

-- The state that the round leaves, with the node `k` current.
abbrev resumed_after : Workers → Node → Workers
resumed_after s k = record s {
  heap = write s.heap s.current (started k);
  cpu = k.tcb.context;
  timer = quantum;
  time_ran = s.time_ran + quantum;
  tot_cntx_switches = s.tot_cntx_switches + 1;
}

dropped_steps :
    (fuel x : ℕ) (s s1 : Workers) (n k : Node)
    → load s.heap s.current ≡ ok n
    → n.tcb.status ≡ blocked
    → leb reset_period s.time_ran ≡ false
    → dequeue_mlfq (record s { timer = 0 }) ≡ ok (x, s1)
    → s1.current ≢ 0
    → s1.heap s1.current ≡ some k
    → k.tcb.status ≡ ready
    → sched_mlfq fuel s ≡ ok (resumed_after s1 k)
unfolding sched_mlfq
dropped_steps fuel x s s1 n k ln st early left nz there st' =
    let s0 = record s { timer = 0 } in
    let l1 = load-some s1.heap s1.current k nz there in
    let s3 = record s1 { time_ran = s1.time_ran + quantum } in
    let s4 = record s3 {
      heap = write s1.heap s1.current (started k);
      timer = quantum;
      tot_cntx_switches = s1.tot_cntx_switches + 1;
    } in
    rw (retire_blocked fuel s0 n ln st) (
      rw (period_blocked fuel x s0 s1 n ln st early left) (
        rw (demote_ready fuel s1 k l1 st') (
          rw (start_current_lem s3 k l1)
            (rw (set_context_lem s4 s1.heap s1.current (started k) nz refl refl) refl))))

-- A round of the MLFQ scheduler within the reset period where the current thread is marked as
-- blocked, at the head of the queue of its level, below 4, the levels above it have no thread, and
-- the thread behind it is ready: the round ends well, and takes the blocked thread out of its queue.
-- The others keep their order and the other levels their queues, and the thread that was behind it
-- is current and its code goes on.
pub sched_mlfq_blocked :
    (fuel : ℕ) (s : Workers) (x y : ℕ) (ys : List ℕ) (n k : Node)
    → s.current ≡ x
    → s.heap x ≡ some n
    → n.tcb.status ≡ blocked
    → n.tcb.priority < 4
    → IsQueue s.heap (s.mlfq_list n.tcb.priority) (x ∷ y ∷ ys)
    → ((j : ℕ) → j < n.tcb.priority → (s.mlfq_list j).head ≡ 0)
    → s.heap y ≡ some k
    → k.tcb.status ≡ ready
    → s.time_ran < reset_period
    → (s' : Workers) × (sched_mlfq fuel s ≡ ok s')
      × (s'.current ≡ y)
      × (s'.cpu ≡ k.tcb.context)
      × IsQueue s'.heap (s'.mlfq_list n.tcb.priority) (y ∷ ys)
      × NotIn x (y ∷ ys)
      × ((j : ℕ) → j ≢ n.tcb.priority → s'.mlfq_list j ≡ s.mlfq_list j)
unfolding write
sched_mlfq_blocked fuel s x y ys n k cur xn st lt queue above yk st' early =
    let nz = queue.chain.1 in
    let out = queue.chain.2 in
    let (s1, left, heap1, cpu1, time1, cur1, queue1, others) =
      left_for (record s { timer = 0 }) x y ys n cur xn lt queue above in
    let y1 : s1.heap s1.current ≡ some k =
      ap s1.heap cur1 ∙ ap (λ h. h y) heap1 ∙ rw (==_of_ne x y out.0) yk in
    let yz : s1.current ≢ 0 = λ z. queue1.chain.1 (sym cur1 ∙ z) in
    let on_time : leb reset_period s.time_ran ≡ false = in_time s.time_ran early in
    (
      resumed_after s1 k,
      dropped_steps fuel x s s1 n k (ap (load s.heap) cur ∙ load-some s.heap x n nz xn) st on_time
          left yz y1 st',
      cur1,
      refl,
      record {
        chain =
            retcb-Chain s1.heap s1.current k ((started k).tcb) (s1.mlfq_list n.tcb.priority).head
              (y ∷ ys) y1 queue1.chain;
        tail_last = queue1.tail_last;
      },
      out,
      others,
    )
  where
    in_time : (t : ℕ) → t < reset_period → leb reset_period t ≡ false
    in_time t l = ground arith
