-- ===== src/Worker/Schedule/Threads/Fairness.antt =====
-- That the MLFQ scheduler lets every thread of the last level run.
use cs.Prelude.{
  ℕ, suc, ◌+◌, ◌*◌, ◌≤◌, ◌<◌, ◌≡◌, refl, sym, ap, ◌∙◌, ◌≢◌, true, some, List, [], ◌∷◌, ◌++◌, arith,
  ==_refl, ==_of_ne, ok, length,
}
use mathlib.Core.Path.{subst}
use cs.Worker.State.{Node, Tcb, Heap, Workers, running, ready, quantum, reset_period, write}
use cs.Worker.Deque.Chain.{NotIn, IsQueue, load-some}
use cs.Worker.Mlfq.{changed_priority}
use cs.Worker.Schedule.{switch, save_context, schedule, sched_mlfq}
use cs.Worker.Schedule.Preempt.{retcb-Chain}
use cs.Worker.Schedule.RoundRobin.{sched_mlfq_round_robin}
use cs.Worker.Schedule.Threads.{worker_yield, interrupts}

-- A thread of the last level that waits, with its own code saved.
abbrev pub Waits : Heap → ℕ → Type 0
Waits h z =
    (k : Node) × (h z ≡ some k)
    × (k.tcb.status ≡ ready)
    × (k.tcb.priority ≡ 3)
    × (k.tcb.context ≡ z)

abbrev pub AllWait : Heap → List ℕ → Type 0
AllWait h [] = Unit {0}
AllWait h (z ∷ zs) = Waits h z × AllWait h zs

-- The threads of the last level take turns: `x` runs, the others wait, and no other level has a
-- thread.
pub record TakesTurns (s : Workers) (x : ℕ) (rest : List ℕ) : Type 0 where
  pub is_current : s.current ≡ x
  pub code : s.cpu ≡ x
  pub queue : IsQueue s.heap (s.mlfq_list 3) (x ∷ rest)
  pub above : (j : ℕ) → j < 3 → (s.mlfq_list j).head ≡ 0
  pub first : (n : Node) × (s.heap x ≡ some n) × (n.tcb.status ≡ running) × (n.tcb.priority ≡ 3)
  pub waiting : AllWait s.heap rest

stays_last : (elapsed p : ℕ) → p ≡ 3 → changed_priority elapsed p ≡ p
unfolding changed_priority
stays_last elapsed p e = ground arith

-- The context is saved.
abbrev saved : Node → ℕ → Node
saved n code = record n { tcb = record (n.tcb) { context = code } }

abbrev with_saved : Workers → Node → Workers
with_saved s n = record s {
  heap = write s.heap s.current (saved n s.cpu);
  tot_cntx_switches = s.tot_cntx_switches + 1;
}

yield_steps :
    (fuel : ℕ) (s s' : Workers) (n : Node)
    → s.current ≢ 0
    → s.heap s.current ≡ some n
    → sched_mlfq fuel (with_saved s n) ≡ ok s'
    → worker_yield true fuel s ≡ ok s'
unfolding worker_yield switch save_context schedule
yield_steps fuel s s' n nz here run = rw (load-some s.heap s.current n nz here) run

AllWait-map :
    (h h' : Heap) (x y : ℕ) (zs : List ℕ)
    → ((z : ℕ) → x ≢ z → y ≢ z → Waits h z → Waits h' z)
    → NotIn x zs
    → NotIn y zs
    → AllWait h zs
    → AllWait h' zs
AllWait-map h h' x y [] f nx ny all = tt
AllWait-map h h' x y (z ∷ zs) f (nx, outx) (ny, outy) (w, all) =
    (f z nx ny w, AllWait-map h h' x y zs f outx outy all)

AllWait-append :
    (h : Heap) (zs : List ℕ) (x : ℕ) → AllWait h zs → Waits h x → AllWait h (zs ++ x ∷ [])
AllWait-append h [] x all w = (w, tt)
AllWait-append h (z ∷ zs) x (w', all) w = (w', AllWait-append h zs x all w)

write_here : (h : Heap) (p : ℕ) (n : Node) → write h p n p ≡ some n
unfolding write
write_here h p n = rw (==_refl p) refl

write_there : (h : Heap) (p z : ℕ) (n : Node) → p ≢ z → write h p n z ≡ h z
unfolding write
write_there h p z n ne = rw (==_of_ne p z ne) refl

-- At an interrupt the running thread goes behind the others, and the next one runs.
yield-TakesTurns :
    (fuel : ℕ) (s : Workers) (x y : ℕ) (ys : List ℕ)
    → TakesTurns s x (y ∷ ys)
    → s.time_ran < reset_period
    → suc (length ys) ≤ fuel
    → (s' : Workers) × (worker_yield true fuel s ≡ ok s')
      × TakesTurns s' y (ys ++ x ∷ [])
      × (s'.time_ran ≡ s.time_ran + quantum)
yield-TakesTurns fuel s x y ys t early f =
    let (n, xn, st, level) = t.first in
    let ((k, yk, sk, lk, ck), all) = t.waiting in
    let nz = t.queue.chain.1 in
    let out = t.queue.chain.2 in
    let cur = t.is_current in
    let here = ap s.heap cur ∙ xn in
    let s1 = with_saved s n in
    let n1 = saved n s.cpu in
    let x1 : s1.heap x ≡ some n1 = ap (λ p. write s.heap p n1 x) cur ∙ write_here s.heap x n1 in
    let same1 : (z : ℕ) → x ≢ z → s1.heap z ≡ s.heap z =
      λ z ne. write_there s.heap s.current z n1 (λ e. ne (sym cur ∙ e)) in
    let queue3 : IsQueue s1.heap (s.mlfq_list 3) (x ∷ y ∷ ys) = record {
      chain =
          retcb-Chain s.heap s.current n (n1.tcb) (s.mlfq_list 3).head (x ∷ y ∷ ys) here
            t.queue.chain;
      tail_last = t.queue.tail_last;
    } in
    let (s', run, queue', cur', cpu', timer', r) =
      sched_mlfq_round_robin fuel s1 x y ys n1 k cur x1 st (omega (arith, level))
        (stays_last (n1.tcb.elapsed + quantum) n1.tcb.priority level)
        (subst (λ p. IsQueue s1.heap (s.mlfq_list p) (x ∷ y ∷ ys)) (sym level) queue3)
        (λ j lt. t.above j (omega (arith, level))) (same1 y out.0 ∙ yk) early f in
    let (m, xm, tcb) = r.waits in
    let (m', ym, tcb') = r.runs in
    (
      s',
      yield_steps fuel s s' n (λ z. nz (sym cur ∙ z)) here run,
      record {
        is_current = cur';
        code = cpu' ∙ ck;
        queue = subst (λ p. IsQueue s'.heap (s'.mlfq_list p) (y ∷ ys ++ x ∷ [])) level queue';
        above = λ j lt. ap (λ q. q.head) (r.levels j (λ e. omega (arith, level))) ∙ t.above j lt;
        first = (m', ym, ap (λ (c : Tcb). c.status) tcb', ap (λ (c : Tcb). c.priority) tcb' ∙ lk);
        waiting =
            AllWait-append s'.heap ys x
              (AllWait-map s.heap s'.heap x y ys
                (λ z nx ny w.
                  let (a, za, sa, la, ca) = w in
                  let (b, zb, same) = r.others z a nx ny (same1 z nx ∙ za) in
                  (
                    b,
                    zb,
                    ap (λ (c : Tcb). c.status) same ∙ sa,
                    ap (λ (c : Tcb). c.priority) same ∙ la,
                    ap (λ (c : Tcb). c.context) same ∙ ca,
                  ))
                out.1 t.queue.chain.5.2 all)
              (
                m,
                xm,
                ap (λ (c : Tcb). c.status) tcb,
                ap (λ (c : Tcb). c.priority) tcb
                    ∙ stays_last (n.tcb.elapsed + quantum) n.tcb.priority level
                    ∙ level,
                ap (λ (c : Tcb). c.context) tcb ∙ t.code,
              );
      },
      r.later,
    )

append_assoc :
    (xs : List ℕ) (z : ℕ) (ys : List ℕ) (x : ℕ)
    → (xs ++ (z ∷ ys)) ++ (x ∷ []) ≡ xs ++ (z ∷ (ys ++ (x ∷ [])))
append_assoc [] z ys x = refl
append_assoc (w ∷ xs) z ys x = ap (λ l. w ∷ l) (append_assoc xs z ys x)

length-snoc : (xs : List ℕ) (x : ℕ) → length (xs ++ x ∷ []) ≡ suc (length xs)
length-snoc [] x = refl
length-snoc (y ∷ xs) x = ap suc (length-snoc xs x)

head_of : ℕ → List ℕ → ℕ
head_of d [] = d
head_of d (x ∷ xs) = x

tail_of : List ℕ → List ℕ
tail_of [] = []
tail_of (x ∷ xs) = xs

not_empty : (bs : List ℕ) (z : ℕ) (after : List ℕ) → [] ≢ bs ++ z ∷ after
not_empty [] z after e = cc
not_empty (b ∷ bs) z after e = cc

-- Where the queues of the MLFQ levels 0 to 2 are empty, the thread at the head of the last queue is
-- current, its code is what runs, and it is marked as running, and the threads behind it are ready,
-- of the last level, and have their own code saved: the threads of that queue take turns. After as
-- many timer interrupts as threads stand before it, with at least as much fuel as threads behind
-- the first, and if the time so far and a quantum for each interrupt do not exceed the reset
-- period, any one of them is current, its code goes on and it is marked as running; no interrupt
-- fails.
pub interrupts_reach :
    (fuel : ℕ) (s : Workers) (x : ℕ) (rest before : List ℕ) (z : ℕ) (after : List ℕ)
    → TakesTurns s x rest
    → x ∷ rest ≡ before ++ z ∷ after
    → s.time_ran + quantum * length before ≤ reset_period
    → length rest ≤ fuel
    → (s' : Workers) × (interrupts true fuel (length before) s ≡ ok s')
      × (s'.current ≡ z)
      × (s'.cpu ≡ z)
      × (n : Node) × (s'.heap z ≡ some n)
      × (n.tcb.status ≡ running)
unfolding interrupts head_of tail_of
interrupts_reach fuel s x rest [] z after t e time f =
    let same : x ≡ z = ap (head_of 0) e in
    let (n, xn, st, level) = t.first in
    (s, refl, t.is_current ∙ same, t.code ∙ same, n, ap s.heap (sym same) ∙ xn, st)
interrupts_reach fuel s x [] (b ∷ bs) z after t e time f =
    absurd (not_empty bs z after (ap tail_of e))
interrupts_reach fuel s x (y ∷ ys) (b ∷ bs) z after t e time f =
    let same : x ≡ b = ap (head_of 0) e in
    let rest_e : y ∷ ys ≡ bs ++ z ∷ after = ap tail_of e in
    let (s1, run, t1, later) = yield-TakesTurns fuel s x y ys t (omega arith) f in
    let (s', more, cur, code, n, zn, st) =
      interrupts_reach fuel s1 y (ys ++ x ∷ []) bs z (after ++ x ∷ []) t1
        (ap (λ l. l ++ x ∷ []) rest_e ∙ append_assoc bs z after x) (omega (arith, later, time))
        (omega (arith, length-snoc ys x, f)) in
    (s', rw run more, cur, code, n, zn, st)
