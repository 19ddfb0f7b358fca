-- ===== src/Worker/Schedule/Resume.antt =====
-- Rounds of the MLFQ scheduler where the current thread is ready.

use cs.Prelude.{ℕ, ◌+◌, ◌≡◌, refl, ◌≢◌, true, false, some, leb, ==_refl, ok}
use cs.Worker.State.{Node, Workers, ready, quantum, reset_period, load, write}
use cs.Worker.Deque.Chain.{load-some}
use cs.Worker.Schedule.{
  retire_mlfq, period_mlfq, demote_mlfq, sched_mlfq, schedule, save_context, switch,
}
use cs.Worker.Schedule.Preempt.{started, start_current_lem, set_context_lem}

retire_mlfq-ready :
    (fuel : ℕ) (s : Workers) (n : Node)
    → load s.heap s.current ≡ ok n
    → n.tcb.status ≡ ready
    → retire_mlfq fuel s ≡ ok s
unfolding retire_mlfq
retire_mlfq-ready fuel s n ln st = rw ln (rw st refl)

period_mlfq-ready :
    (fuel : ℕ) (s : Workers) (n : Node)
    → load s.heap s.current ≡ ok n
    → n.tcb.status ≡ ready
    → leb reset_period s.time_ran ≡ false
    → period_mlfq fuel s ≡ ok s
unfolding period_mlfq
period_mlfq-ready fuel s n ln st early = rw ln (rw st (rw early refl))

demote_mlfq-ready :
    (fuel : ℕ) (s : Workers) (n : Node)
    → load s.heap s.current ≡ ok n
    → n.tcb.status ≡ ready
    → demote_mlfq fuel s ≡ ok s
unfolding demote_mlfq
demote_mlfq-ready fuel s n ln st = rw ln (rw st refl)

-- The state after the scheduler started the current thread, which was ready.
abbrev pub resumed : Workers → Node → Workers
resumed s n = record s {
  heap = write s.heap s.current (started n);
  cpu = n.tcb.context;
  timer = quantum;
  time_ran = s.time_ran + quantum;
  tot_cntx_switches = s.tot_cntx_switches + 1;
}

pub sched_mlfq-ready :
    (fuel : ℕ) (s : Workers) (n : Node)
    → s.current ≢ 0
    → load s.heap s.current ≡ ok n
    → n.tcb.status ≡ ready
    → leb reset_period s.time_ran ≡ false
    → sched_mlfq fuel s ≡ ok (resumed s n)
unfolding sched_mlfq
sched_mlfq-ready fuel s n nz ln st early =
    let s0 = record s { timer = 0 } in
    let s3 = record s { timer = 0; time_ran = s.time_ran + quantum } in
    let s4 = record s3 {
      heap = write s.heap s.current (started n);
      timer = quantum;
      tot_cntx_switches = s.tot_cntx_switches + 1;
    } in
    rw (retire_mlfq-ready fuel s0 n ln st) (
      rw (period_mlfq-ready fuel s0 n ln st early) (
        rw (demote_mlfq-ready fuel s0 n ln st) (
          rw (start_current_lem s3 n ln)
            (rw (set_context_lem s4 s.heap s.current (started n) nz refl refl) refl))))

-- `swapcontext` and the scheduler, where the current thread is ready: what goes on is the code
-- that was running.
pub switch-ready :
    (fuel : ℕ) (s : Workers) (n : Node)
    → s.current ≢ 0
    → s.heap s.current ≡ some n
    → n.tcb.status ≡ ready
    → leb reset_period s.time_ran ≡ false
    → (s' : Workers) × (switch true fuel s ≡ ok s') × (s'.cpu ≡ s.cpu) × (s'.current ≡ s.current)
unfolding switch save_context schedule write
switch-ready fuel s n nz here st early =
    let t = n.tcb in
    let saved = record n { tcb = record t { context = s.cpu } } in
    let s1 = record s {
      heap = write s.heap s.current saved;
      tot_cntx_switches = s.tot_cntx_switches + 1;
    } in
    let there : s1.heap s.current ≡ some saved = rw (==_refl s.current) in
    (
      resumed s1 saved,
      rw (load-some s.heap s.current n nz here)
          (sched_mlfq-ready fuel s1 saved nz (load-some s1.heap s.current saved nz there) st early),
      refl,
      refl,
    )
