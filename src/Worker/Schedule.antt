-- ===== src/Worker/Schedule.antt =====
-- The schedulers and the thread calls of project2/code/thread-worker.c. The scheduler's context
-- is never saved, so each switch to it runs `schedule` from its start. Of the clock and the
-- averages only the start times are kept.
pub mod Threads
pub mod Preempt
pub mod Resume
pub mod RoundRobin
pub mod Dropped
use cs.Prelude.{
  ℕ, zero, suc, ◌+◌, ◌-◌, ◌*◌, ◌/◌, ◌%◌, ◌^◌, ◌≤◌, ◌<◌, bit_and, bit_or, ◌≡◌, refl, sym, ap, ◌∙◌,
  fun_ext, ◌≢◌, ◌↔◌, ◌⊎◌, inl, inr, Bool, true, false, ◌&&◌, ◌||◌, Option, none, some, List, [],
  ◌∷◌, ◌++◌, arith, ltb, leb, ◌==◌, if◌then◌else◌, ==_iff, ==_refl, ==_of_ne, Bool-cases, update, ℤ,
  pos, negsuc, signed_char, shift_right, rem_two, is_zero, is_one, Outcome, ok, exits, fault,
  out_of_fuel, ◌>>=◌, >>=-eq-ok,
}
use cs.Worker.State.{
  Heap, Workers, Tcb, Node, ThreadStatus, running, exitted, ready, blocked, quantum, reset_period,
  load, write,
}
use cs.Worker.Deque.{set_next, enqueue_exit, enqueue_buffer, dequeue_buffer}
use cs.Worker.Psjf.{
  is_running, is_exitted, is_blocked, set_status, set_currently_running_psjf, dequeue_psjf,
}
use cs.Worker.Mlfq.{dequeue_mlfq, enqueue_mlfq, change_priority}

-- The part that the two schedulers share: the response flag, the status and the timer.
unfoldable pub start_current : Workers → Outcome Workers
start_current s = load s.heap s.current >>= λ n.
    let t = n.tcb in
    ok (record s {
      heap =
          write s.heap s.current
            (record n { tcb = record t { response_flag = 1; status = running } });
      timer = quantum;
      tot_cntx_switches = s.tot_cntx_switches + 1;
    })

-- `setcontext`: the code that goes on is the one the context was saved for.
unfoldable pub set_context : Workers → Outcome Workers
set_context s = load s.heap s.current >>= λ n. ok (record s { cpu = n.tcb.context })

unfoldable pub retire_psjf : ℕ → Workers → Outcome Workers
retire_psjf fuel s = load s.heap s.current >>= λ n.
    if is_exitted n.tcb.status
    then (do
      s' ← dequeue_psjf fuel s s.current
      h ← set_next s'.heap s.current 0
      enqueue_exit fuel (record s' { heap = h }) s.current)
    else ok s

-- A thread that was running is ready again, and its job counts as one slice longer.
unfoldable pub demote_psjf : Workers → Outcome Workers
demote_psjf s = load s.heap s.current >>= λ n.
    let t = n.tcb in
    if is_running t.status
    then ok (record s {
      heap =
          write s.heap s.current
            (record n { tcb = record t { status = ready; priority_psjf = t.priority_psjf + 1 } });
    })
    else ok s

unfoldable pub sched_psjf : ℕ → Workers → Outcome Workers
sched_psjf fuel s = do
  s1 ← retire_psjf fuel (record s { timer = 0 })
  s2 ← demote_psjf s1
  s3 ← set_currently_running_psjf fuel s2
  s4 ← start_current s3
  set_context s4

-- `node->thread_control_block->priority = 0`.
unfoldable pub reset_priority : Heap → ℕ → Outcome Heap
reset_priority h p =
    load h p >>= λ n. let t = n.tcb in ok (write h p (record n { tcb = record t { priority = 0 } }))

-- The loop that moves the queues to the buffer, from the node that was dequeued last.
unfoldable pub drain_queues : ℕ → Workers → ℕ → Outcome Workers
drain_queues zero s temp = out_of_fuel
drain_queues (suc fuel) s temp = elim (temp == 0) [
  | true ↦ ok s
  | false ↦ reset_priority s.heap temp >>= λ h.
      enqueue_buffer fuel (record s { heap = h }) temp >>= λ s'.
      dequeue_mlfq s' >>= λ r. drain_queues fuel r.1 r.0
]

-- The loop that moves the buffer back.
unfoldable pub refill_queues : ℕ → Workers → ℕ → Outcome Workers
refill_queues zero s temp = out_of_fuel
refill_queues (suc fuel) s temp = elim (temp == 0) [
  | true ↦ ok s
  | false ↦ enqueue_mlfq fuel s temp >>= λ s'. dequeue_buffer s' >>= λ r. refill_queues fuel r.1 r.0
]

-- Every thread goes back to the first queue.
unfoldable pub reset_queues : ℕ → Workers → ℕ → Outcome Workers
reset_queues fuel s temp = do
  s' ← drain_queues fuel s temp
  r ← dequeue_buffer s'
  refill_queues fuel r.1 r.0

unfoldable pub retire_mlfq : ℕ → Workers → Outcome Workers
retire_mlfq fuel s = load s.heap s.current >>= λ n.
    if is_exitted n.tcb.status then dequeue_mlfq s >>= (λ r. enqueue_exit fuel r.1 r.0) else ok s

-- The branches on a blocked thread and on the reset period.
unfoldable pub period_mlfq : ℕ → Workers → Outcome Workers
period_mlfq fuel s = load s.heap s.current >>= λ n.
    if is_blocked n.tcb.status
    then if leb reset_period s.time_ran
      then (do
        r ← dequeue_mlfq (record s { time_ran = 0 })
        let (temp, s1) = r
        h ← reset_priority s1.heap temp
        r' ← dequeue_mlfq (record s1 { heap = h })
        reset_queues fuel r'.1 r'.0)
      else dequeue_mlfq s >>= (λ r. ok r.1)
    else if leb reset_period s.time_ran
    then dequeue_mlfq (record s { time_ran = 0 }) >>= (λ r. reset_queues fuel r.1 r.0)
    else ok s

unfoldable pub age_running : ℕ → Workers → ℕ → Outcome Workers
age_running fuel s temp = load s.heap temp >>= λ n.
    let t = n.tcb in
    do
      let h =
          write s.heap temp
            (record n { tcb = record t { status = ready; elapsed = t.elapsed + quantum } })
      h' ← change_priority h temp
      enqueue_mlfq fuel (record s { heap = h' }) temp

-- A thread that was running goes behind its queue, perhaps a level lower.
unfoldable pub demote_mlfq : ℕ → Workers → Outcome Workers
demote_mlfq fuel s = load s.heap s.current >>= λ n.
    if is_running n.tcb.status then dequeue_mlfq s >>= (λ r. age_running fuel r.1 r.0) else ok s

unfoldable pub sched_mlfq : ℕ → Workers → Outcome Workers
sched_mlfq fuel s = do
  s1 ← retire_mlfq fuel (record s { timer = 0 })
  s2 ← period_mlfq fuel s1
  s3 ← demote_mlfq fuel s2
  s4 ← start_current (record s3 { time_ran = s3.time_ran + quantum })
  set_context s4

unfoldable pub schedule : Bool → ℕ → Workers → Outcome Workers
schedule use_mlfq fuel s = if use_mlfq then sched_mlfq fuel s else sched_psjf fuel s

-- `swapcontext`: the running code's context goes to the current node.
unfoldable pub save_context : Workers → Outcome Workers
save_context s = load s.heap s.current >>= λ n.
    let t = n.tcb in
    ok
      (record s { heap = write s.heap s.current (record n { tcb = record t { context = s.cpu } }) })

unfoldable pub switch : Bool → ℕ → Workers → Outcome Workers
switch use_mlfq fuel s =
    save_context (record s { tot_cntx_switches = s.tot_cntx_switches + 1 }) >>= λ s'.
    schedule use_mlfq fuel s'
