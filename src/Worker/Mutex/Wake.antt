-- ===== src/Worker/Mutex/Wake.antt =====
-- What `worker_mutex_unlock` does with the threads that wait, under MLFQ.
use mathlib.Core.Path.{subst}
use mathlib.Core.Option.{some-injective}
use cs.Prelude.{
  ℕ, zero, suc, ◌+◌, ◌*◌, ◌<◌, ◌≡◌, refl, sym, ap, ◌∙◌, ◌≢◌, inl, true, some, List, [], ◌∷◌, ◌++◌,
  arith, ==_iff, ==_of_ne, ==_iff, ok, length,
}
use cs.Worker.State.{Node, Tcb, Heap, Deque, Workers}
use cs.Worker.Deque.{dequeue_mutex}
use cs.Worker.Deque.Chain.{NotIn, Chain, IsQueue}
use cs.Worker.Deque.Laws.{KeepsTcbs, KeepsTcbs-trans, kept_tcb, dequeue_mutex-head}
use cs.Worker.Mlfq.Enqueue.{enqueue_mlfq-append}
use cs.Worker.Mutex.{Mutex, blocked_queue, wake, wake_all, worker_mutex_unlock}

-- None of the nodes `ws` is one of `xs`.
abbrev pub Apart : List ℕ → List ℕ → Type 0
Apart [] xs = Unit {0}
Apart (w ∷ ws) xs = NotIn w xs × Apart ws xs

-- The threads of the nodes are of the level.
abbrev pub AllAt : ℕ → Heap → List ℕ → Type 0
AllAt level h [] = Unit {0}
AllAt level h (w ∷ ws) = ((n : Node) × (h w ≡ some n) × (n.tcb.priority ≡ level)) × AllAt level h ws

NotIn-snoc : (b w : ℕ) (xs : List ℕ) → NotIn b xs → b ≢ w → NotIn b (xs ++ w ∷ [])
NotIn-snoc b w [] out ne = (ne, tt)
NotIn-snoc b w (x ∷ xs) out ne = (out.0, NotIn-snoc b w xs out.1 ne)

Apart-snoc : (ws xs : List ℕ) (w : ℕ) → Apart ws xs → NotIn w ws → Apart ws (xs ++ w ∷ [])
Apart-snoc [] xs w apart out = tt
Apart-snoc (v ∷ ws) xs w apart out =
    (NotIn-snoc v w xs apart.0 (λ z. out.0 (sym z)), Apart-snoc ws xs w apart.1 out.1)

-- A chain of nodes that stay is a chain.
Chain-ext :
    (h h' : Heap) (p : ℕ) (ws xs : List ℕ)
    → ((b : ℕ) → NotIn b xs → h' b ≡ h b)
    → Apart ws xs
    → Chain h p ws
    → Chain h' p ws
Chain-ext h h' p [] xs same apart c = c
Chain-ext h h' p (w ∷ ws) xs same apart (e, nz, out, n, here, rest) =
    (e, nz, out, n, same w apart.0 ∙ here, Chain-ext h h' n.next ws xs same apart.1 rest)

other-Chain :
    (h h' : Heap) (p x : ℕ) (xs : List ℕ)
    → ((b : ℕ) → x ≢ b → h' b ≡ h b)
    → NotIn x xs
    → Chain h p xs
    → Chain h' p xs
other-Chain h h' p x [] same out c = c
other-Chain h h' p x (y ∷ ys) same out (e, nz, apart, n, here, rest) =
    (e, nz, apart, n, same y out.0 ∙ here, other-Chain h h' n.next x ys same out.1 rest)

AllAt-kept :
    (level : ℕ) (h h' : Heap) (ws : List ℕ) → KeepsTcbs h h' → AllAt level h ws → AllAt level h' ws
AllAt-kept level h h' [] keeps all = tt
AllAt-kept level h h' (w ∷ ws) keeps ((n, here, at), all) =
    let (m, there, tcb) = kept_tcb h h' w n here keeps in
    ((m, there, ap (λ (t : Tcb). t.priority) tcb ∙ at), AllAt-kept level h h' ws keeps all)

-- All of them went behind the queue of the level.
record Woken (s : Workers) (level : ℕ) (all : List ℕ) (s' : Workers) (q' : Deque) : Type 0 where
  nobody : q'.head ≡ 0
  queue : IsQueue s'.heap (s'.mlfq_list level) all
  others : (k : ℕ) → k ≢ level → s'.mlfq_list k ≡ s.mlfq_list k
  keeps : KeepsTcbs s.heap s'.heap
  same_current : s'.current ≡ s.current

append_none : (xs : List ℕ) → xs ++ [] ≡ xs
append_none [] = refl
append_none (x ∷ xs) = rw (append_none xs) refl

append_next : (xs : List ℕ) (w : ℕ) (ws : List ℕ) → (xs ++ w ∷ []) ++ ws ≡ xs ++ w ∷ ws
append_next [] w ws = refl
append_next (x ∷ xs) w ws = rw (append_next xs w ws) refl

length_snoc : (xs : List ℕ) (w : ℕ) → length (xs ++ w ∷ []) ≡ suc (length xs)
length_snoc [] w = refl
length_snoc (x ∷ xs) w = rw (length_snoc xs w) refl

wake_step :
    (fuel w : ℕ) (s s2 : Workers) (h : Heap) (q q1 : Deque)
    → q.head ≢ 0
    → dequeue_mutex s.heap q ≡ ok (w, h, q1)
    → wake true fuel (record s { heap = h }) w ≡ ok s2
    → wake_all true (suc fuel) s q ≡ wake_all true fuel s2 q1
unfolding wake_all
wake_step fuel w s s2 h q q1 some_head out woke =
    rw (wake_all, ==_of_ne q.head 0 some_head) (rw out (rw woke refl))

wake_all-Woken :
    (fuel level : ℕ) (ws xs : List ℕ) (s : Workers) (q : Deque)
    → s.current ≢ 0
    → level < 4
    → IsQueue s.heap q ws
    → IsQueue s.heap (s.mlfq_list level) xs
    → Apart ws xs
    → AllAt level s.heap ws
    → length xs + 2 * length ws < fuel
    → (s' : Workers) × (q' : Deque) × (wake_all true fuel s q ≡ ok (s', q'))
      × Woken s level (xs ++ ws) s' q'
unfolding wake_all wake
wake_all-Woken zero level ws xs s q cur lt blocked ready apart at f = absurd (omega arith)
wake_all-Woken (suc fuel) level [] xs s q cur lt blocked ready apart at f = (
  s,
  q,
  let e = (==_iff q.head 0).1 blocked.chain in rw (wake_all, e) refl,
  record {
    nobody = blocked.chain;
    queue = subst (IsQueue s.heap (s.mlfq_list level)) (sym (append_none xs)) ready;
    others = λ k ne. refl;
    keeps = λ a. inl refl;
    same_current = refl;
  },
)
wake_all-Woken (suc fuel) level (w ∷ ws) xs s q cur lt blocked ready apart at f =
    let ((n, here, at_n), at_ws) = at in
    let (h, q1, out, queue1, keeps1, n1, n1h, end, frame1) =
      dequeue_mutex-head s.heap q w ws blocked in
    let (m, mh, tcb) = kept_tcb s.heap h w n here keeps1 in
    let level1 : n1.tcb.priority ≡ level =
      ap (λ (k : Node). k.tcb.priority) (some-injective n1 m (sym n1h ∙ mh))
      ∙ ap (λ (t : Tcb). t.priority) tcb
      ∙ at_n in
    let wz = blocked.chain.1 in
    let ready1 : IsQueue h (s.mlfq_list level) xs = record {
      chain = other-Chain s.heap h (s.mlfq_list level).head w xs frame1 apart.0 ready.chain;
      tail_last = ready.tail_last;
    } in
    let (s2, run, ready2, others2, keeps2, cur2, timer2, time2, frame2) =
      enqueue_mlfq-append fuel (record s { heap = h }) xs w n1 cur wz n1h end
        (subst (λ p. p < 4) (sym level1) lt)
        (subst (λ p. IsQueue h (s.mlfq_list p) xs) (sym level1) ready1) apart.0 (omega arith) in
    let keeps12 = KeepsTcbs-trans s.heap h s2.heap keeps1 keeps2 in
    let (s', q', rest, woken) =
      wake_all-Woken fuel level ws (xs ++ w ∷ []) s2 q1 (λ z. cur (sym cur2 ∙ z)) lt
        (record {
          chain = Chain-ext h s2.heap q1.head ws xs frame2 apart.1 queue1.chain;
          tail_last = queue1.tail_last;
        })
        (subst (λ p. IsQueue s2.heap (s2.mlfq_list p) (xs ++ w ∷ [])) level1 ready2)
        (Apart-snoc ws xs w apart.1 blocked.chain.2)
        (AllAt-kept level s.heap s2.heap ws keeps12 at_ws) (omega (arith, length_snoc xs w)) in
    (
      s',
      q',
      wake_step fuel w s s2 h q q1 (λ z. wz (sym blocked.chain.0 ∙ z)) out run ∙ rest,
      record {
        nobody = woken.nobody;
        queue = subst (IsQueue s'.heap (s'.mlfq_list level)) (append_next xs w ws) woken.queue;
        others = λ k ne. woken.others k ne ∙ others2 k (λ z. ne (z ∙ level1));
        keeps = KeepsTcbs-trans s.heap s2.heap s'.heap keeps12 woken.keeps;
        same_current = woken.same_current ∙ cur2;
      },
    )

-- Under MLFQ, where some thread is current, and the threads that wait for the mutex are of one level
-- and their nodes are not in the queue of it: with fuel for the walks `worker_mutex_unlock` ends
-- well. The mutex is free and nobody waits for it; those that waited stand, in their order, behind
-- the threads that were in the queue of the level. The other levels keep their queues, the same
-- thread is current, and every control block stays as it was: also the status `blocked` of those
-- that waited.
pub worker_mutex_unlock-append :
    (fuel level : ℕ) (waiting xs : List ℕ) (s : Workers) (m : Mutex) (q : Deque)
    → s.current ≢ 0
    → level < 4
    → m.blocked_threads ≡ some q
    → IsQueue s.heap q waiting
    → IsQueue s.heap (s.mlfq_list level) xs
    → Apart waiting xs
    → AllAt level s.heap waiting
    → length xs + 2 * length waiting < fuel
    → (s' : Workers) × (q' : Deque) × (worker_mutex_unlock true fuel s m
        ≡ ok (s', record m { available = 0; blocked_threads = some q' }))
      × (q'.head ≡ 0)
      × IsQueue s'.heap (s'.mlfq_list level) (xs ++ waiting)
      × ((k : ℕ) → k ≢ level → s'.mlfq_list k ≡ s.mlfq_list k)
      × KeepsTcbs s.heap s'.heap
      × (s'.current ≡ s.current)
unfolding worker_mutex_unlock blocked_queue
worker_mutex_unlock-append fuel level waiting xs s m q cur lt blk blocked ready apart at f =
    let (s', q', run, w) =
      wake_all-Woken fuel level waiting xs s q cur lt blocked ready apart at f in
    (s', q', rw blk (rw run refl), w.nobody, w.queue, w.others, w.keeps, w.same_current)
