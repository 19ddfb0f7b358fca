-- ===== src/Worker/Mlfq/Enqueue.antt =====
-- `enqueueMLFQ` on the four queues.
use mathlib.Core.Path.{subst}
use cs.Prelude.{
  length, ℕ, ◌≤◌, ◌<◌, ◌≡◌, refl, sym, ◌≢◌, inl, inr, true, false, some, List, [], ◌∷◌, ◌++◌, arith,
  ltb, ◌==◌, if◌then◌else◌, ==_refl, ==_of_ne, Bool-cases, update, Outcome, ok, ◌>>=◌, >>=-eq-ok,
  ok-transport,
}
use cs.Worker.State.{Node, Heap, Deque, Workers, quantum, load}
use cs.Worker.Deque.{set_next, last_node, enqueue_mutex}
use cs.Worker.Deque.Chain.{NotIn, IsQueue, load-some}
use cs.Worker.Deque.Laws.{KeepsTcbs, enqueue_mutex-append}
use cs.Worker.Psjf.{make_current}
use cs.Worker.Mlfq.{queue_at, enqueue_mlfq}

enqueue_mlfq_short :
    (fuel : ℕ) (s : Workers) (a : ℕ) (m : Node)
    → (s.current == 0) ≡ false
    → load s.heap a ≡ ok m
    → ltb m.tcb.priority 4 ≡ true
    → ((s.mlfq_list m.tcb.priority).head == 0) ≡ true
    → enqueue_mlfq fuel s a
      ≡ ok (record s {
        mlfq_list = update s.mlfq_list m.tcb.priority (record { head = a; tail = a });
        timer = quantum;
      })
unfolding enqueue_mlfq make_current queue_at
enqueue_mlfq_short fuel s a m nz lm lt short = rw nz (rw lm (rw lt (rw short refl)))

enqueue_mlfq_long :
    (fuel : ℕ) (s : Workers) (a : ℕ) (m : Node) (l : ℕ) (h : Heap)
    → (s.current == 0) ≡ false
    → load s.heap a ≡ ok m
    → ltb m.tcb.priority 4 ≡ true
    → ((s.mlfq_list m.tcb.priority).head == 0) ≡ false
    → last_node fuel s.heap (s.mlfq_list m.tcb.priority).head ≡ ok l
    → set_next s.heap l a ≡ ok h
    → enqueue_mlfq fuel s a
      ≡ ok (record s {
        heap = h;
        mlfq_list =
            update s.mlfq_list m.tcb.priority
              (record { head = (s.mlfq_list m.tcb.priority).head; tail = a });
        timer = quantum;
      })
unfolding enqueue_mlfq make_current queue_at
enqueue_mlfq_long fuel s a m l h nz lm lt long ln w =
    rw nz (rw lm (rw lt (rw long (rw ln (rw w refl)))))

-- The state after a node went into the queue of its level.
abbrev pub enqueued : Workers → ℕ → Heap → Deque → Workers
enqueued s level h q = record s {
  heap = h;
  mlfq_list = update s.mlfq_list level q;
  timer = quantum;
}

enqueue_mlfq-enqueue_mutex :
    (fuel : ℕ) (s : Workers) (a : ℕ) (m : Node) (h' : Heap) (q' : Deque)
    → (s.current == 0) ≡ false
    → load s.heap a ≡ ok m
    → ltb m.tcb.priority 4 ≡ true
    → enqueue_mutex fuel s.heap a (s.mlfq_list m.tcb.priority) ≡ ok (h', q')
    → enqueue_mlfq fuel s a ≡ ok (enqueued s m.tcb.priority h' q')
unfolding enqueue_mutex
enqueue_mlfq-enqueue_mutex fuel s a m h' q' nz lm lt run =
    let q = s.mlfq_list m.tcb.priority in
    let P : Heap × Deque → Type 0 =
      λ r. enqueue_mlfq fuel s a ≡ ok (enqueued s m.tcb.priority r.0 r.1) in
    let link : Heap → Outcome (Heap × Deque) = λ h. ok (h, record q { tail = a }) in
    let walk : ℕ → Outcome (Heap × Deque) = λ l. set_next s.heap l a >>= link in
    elim (Bool-cases (q.head == 0)) [
      | inl short ↦
          ok-transport P (rw short refl) run (enqueue_mlfq_short fuel s a m nz lm lt short)
      | inr long ↦
          let r = >>=-eq-ok (last_node fuel s.heap q.head) walk (
            subst
              (λ b.
                (if b
                  then ok (s.heap, record { head = a; tail = a })
                  else (last_node fuel s.heap q.head >>= walk))
                ≡ ok (h', q'))
              long run) in
          let r' = >>=-eq-ok (set_next s.heap r.0 a) link r.2 in
          ok-transport P refl r'.2 (enqueue_mlfq_long fuel s a m r.0 r'.0 nz lm lt long r.1 r'.1)
    ]

pub other_queue :
    (queues : ℕ → Deque) (i k : ℕ) (q : Deque) → k ≢ i → update queues i q k ≡ queues k
other_queue queues i k q ne = rw (==_of_ne i k (λ z. ne (sym z)))

pub this_queue : (queues : ℕ → Deque) (i : ℕ) (q : Deque) → update queues i q i ≡ q
this_queue queues i q = rw (==_refl i)

-- Where some thread is current, a thread whose node is in no queue goes behind the queue of its
-- level, whose other nodes keep their order. The queues of the other levels, the current thread,
-- the control blocks, the nodes that are not of this queue and the time so far stay as they were,
-- and the timer is set.
pub enqueue_mlfq-append :
    (fuel : ℕ) (s : Workers) (xs : List ℕ) (a : ℕ) (m : Node)
    → s.current ≢ 0
    → a ≢ 0
    → s.heap a ≡ some m
    → m.next ≡ 0
    → m.tcb.priority < 4
    → IsQueue s.heap (s.mlfq_list m.tcb.priority) xs
    → NotIn a xs
    → length xs ≤ fuel
    → (s' : Workers) × (enqueue_mlfq fuel s a ≡ ok s')
      × IsQueue s'.heap (s'.mlfq_list m.tcb.priority) (xs ++ a ∷ [])
      × ((k : ℕ) → k ≢ m.tcb.priority → s'.mlfq_list k ≡ s.mlfq_list k)
      × KeepsTcbs s.heap s'.heap
      × (s'.current ≡ s.current)
      × (s'.timer ≡ quantum)
      × (s'.time_ran ≡ s.time_ran)
      × ((b : ℕ) → NotIn b xs → s'.heap b ≡ s.heap b)
enqueue_mlfq-append fuel s xs a m cur nza here end lt queue out f =
    let level = m.tcb.priority in
    let (h', q', run, queue', keeps, others) =
      enqueue_mutex-append fuel s.heap (s.mlfq_list level) xs a m queue f nza out here end in
    (
      enqueued s level h' q',
      enqueue_mlfq-enqueue_mutex fuel s a m h' q' (==_of_ne s.current 0 cur)
          (load-some s.heap a m nza here) (ground arith) run,
      subst (λ q. IsQueue h' q (xs ++ a ∷ [])) (sym (this_queue s.mlfq_list level q')) queue',
      λ k ne. other_queue s.mlfq_list level k q' ne,
      keeps,
      refl,
      refl,
      refl,
      others,
    )
