-- ===== src/Worker/Mlfq/Queues.antt =====
-- The choice of the next queue, and `dequeueMLFQ` on the four queues.
use mathlib.Core.Path.{subst}
use cs.Prelude.{
  ℕ, zero, suc, ◌+◌, ◌<◌, ◌≡◌, refl, sym, ap, ◌∙◌, ◌≤◌, ◌≢◌, inl, inr, true, false, some, List, [],
  ◌∷◌, arith, ltb, ◌==◌, ==_iff, ==_of_ne, Bool-cases, update, ok,
}
use cs.Worker.State.{Node, Heap, Deque, empty_deque, Workers, total_queues, load, write}
use cs.Worker.Deque.{set_next}
use cs.Worker.Deque.Chain.{Chain, IsTail, IsQueue, load-some, write-Chain}
use cs.Worker.Mlfq.{queue_at, first_head, dequeue_mlfq}
use cs.Worker.Mlfq.Enqueue.{other_queue, this_queue}

-- The thread that is next: the head of the first of `n` queues from `i` that has one, or `old`
-- where all are empty.
pub data IsNext (queues : ℕ → Deque) (i n old next : ℕ) : Type 0 where
  all_empty :
      ((j : ℕ) → i ≤ j → j < i + n → (queues j).head ≡ 0) → next ≡ old → IsNext queues i n old next
  next_of :
      (k : ℕ)
      → i ≤ k
      → k < i + n
      → ((j : ℕ) → i ≤ j → j < k → (queues j).head ≡ 0)
      → (queues k).head ≢ 0
      → next ≡ (queues k).head
      → IsNext queues i n old next

first_head-IsNext :
    (queues : ℕ → Deque) (i n old : ℕ) → IsNext queues i n old (first_head queues i n old)
unfolding first_head
first_head-IsNext queues i zero old = all_empty (λ j lo hi. absurd (omega arith)) refl
first_head-IsNext queues i (suc n) old = elim (Bool-cases ((queues i).head == 0)) [
  | inl no_head ↦
      let here = (==_iff (queues i).head 0).0 no_head in
      elim (first_head-IsNext queues (i + 1) n old) [
        | all_empty all e ↦
            all_empty (λ j lo hi. at_or_behind queues i j here (λ lo'. all j lo' (omega arith)) lo)
              (rw no_head e)
        | next_of k lo hi before there e ↦
            next_of k (omega arith) (omega arith)
              (λ j lo' hi'. at_or_behind queues i j here (λ lo''. before j lo'' hi') lo') there
              (rw no_head e)
      ]
  | inr head ↦
      next_of i (omega arith) (omega arith) (λ j lo hi. absurd (omega arith))
        (λ z. unequal (queues i).head 0 head z) (rw head refl)
]
  where
    unequal : (x y : ℕ) → (x == y) ≡ false → x ≢ y
    unequal x y e z = ground arith

    at_or_behind :
        (queues : ℕ → Deque) (i j : ℕ)
        → (queues i).head ≡ 0
        → (i + 1 ≤ j → (queues j).head ≡ 0)
        → i ≤ j
        → (queues j).head ≡ 0
    at_or_behind queues i j here later lo = elim (Bool-cases (i == j)) [
      | inl same ↦ ap (λ k. (queues k).head) (sym ((==_iff i j).0 same)) ∙ here
      | inr far ↦ later (ground arith)
    ]

-- The state after the current thread `x` left the queue of its level.
abbrev pub dequeued : Workers → ℕ → Heap → Deque → Workers
dequeued s level h q =
    let queues = update s.mlfq_list level q in
    record s {
      heap = h;
      mlfq_list = queues;
      timer = 0;
      current = first_head queues 0 total_queues s.current;
    }

dequeue_mlfq_next :
    (s : Workers) (n : Node) (h : Heap)
    → load s.heap s.current ≡ ok n
    → ltb n.tcb.priority 4 ≡ true
    → ((s.mlfq_list n.tcb.priority).head == 0) ≡ false
    → ((s.mlfq_list n.tcb.priority).tail == (s.mlfq_list n.tcb.priority).head) ≡ false
    → (first : Node) → load s.heap (s.mlfq_list n.tcb.priority).head ≡ ok first
    → set_next s.heap s.current 0 ≡ ok h
    → dequeue_mlfq s
      ≡ ok (
        s.current,
        dequeued s n.tcb.priority h
            (record { head = first.next; tail = (s.mlfq_list n.tcb.priority).tail }),
      )
unfolding dequeue_mlfq queue_at
dequeue_mlfq_next s n h ln lt nz more first lf w =
    rw ln (rw lt (rw nz (rw more (rw lf (rw w refl)))))

dequeue_mlfq_only :
    (s : Workers) (n : Node) (h : Heap)
    → load s.heap s.current ≡ ok n
    → ltb n.tcb.priority 4 ≡ true
    → ((s.mlfq_list n.tcb.priority).head == 0) ≡ false
    → ((s.mlfq_list n.tcb.priority).tail == (s.mlfq_list n.tcb.priority).head) ≡ true
    → set_next s.heap s.current 0 ≡ ok h
    → dequeue_mlfq s ≡ ok (s.current, dequeued s n.tcb.priority h empty_deque)
unfolding dequeue_mlfq queue_at
dequeue_mlfq_only s n h ln lt nz only w = rw ln (rw lt (rw nz (rw only (rw w refl))))

only-IsQueue :
    (h : Heap) (t x : ℕ) (xs : List ℕ) → IsTail t (x ∷ xs) → t ≡ x → IsQueue h empty_deque xs
only-IsQueue h t x [] is_tail e = record { chain = refl; tail_last = tt }
only-IsQueue h t x (y ∷ ys) is_tail e = absurd (is_tail.0 e)

rest-IsTail : (t x : ℕ) (xs : List ℕ) → IsTail t (x ∷ xs) → IsTail t xs
rest-IsTail t x [] is_tail = tt
rest-IsTail t x (y ∷ ys) is_tail = is_tail.1

-- What leaving the queue of the level `level` comes to.
abbrev pub LeftQueue : Workers → ℕ → List ℕ → ℕ → Node → Type 0
LeftQueue s x xs level n =
    (s' : Workers) × (dequeue_mlfq s ≡ ok (x, s'))
    × IsQueue s'.heap (s'.mlfq_list level) xs
    × ((k : ℕ) → k ≢ level → s'.mlfq_list k ≡ s.mlfq_list k)
    × (s'.heap ≡ write s.heap x (record n { next = 0 }))
    × (s'.cpu ≡ s.cpu)
    × (s'.time_ran ≡ s.time_ran)
    × IsNext s'.mlfq_list 0 4 x s'.current
    × (s'.timer ≡ 0)

left_queue :
    (s : Workers) (x : ℕ) (xs : List ℕ) (n : Node) (level : ℕ) (q : Deque)
    → s.current ≡ x
    → dequeue_mlfq s
      ≡ ok (s.current, dequeued s level (write s.heap s.current (record n { next = 0 })) q)
    → IsQueue (write s.heap s.current (record n { next = 0 })) q xs
    → LeftQueue s x xs level n
unfolding write
left_queue s x xs n level q cur run queue = (
  dequeued s level (write s.heap s.current (record n { next = 0 })) q,
  run ∙ ap (λ a. ok (a, dequeued s level (write s.heap s.current (record n { next = 0 })) q)) cur,
  subst (λ q'. IsQueue (write s.heap s.current (record n { next = 0 })) q' xs)
      (sym (this_queue s.mlfq_list level q)) queue,
  λ k ne. other_queue s.mlfq_list level k q ne,
  ap (λ a. write s.heap a (record n { next = 0 })) cur,
  refl,
  refl,
  subst
      (λ c.
        IsNext (update s.mlfq_list level q) 0 4 c
          (first_head (update s.mlfq_list level q) 0 4 s.current))
      cur (first_head-IsNext (update s.mlfq_list level q) 0 4 s.current),
  refl,
)

-- The current thread, at the head of the queue of its level, leaves the queue, with a NULL link.
-- The other nodes keep their order and the queues of the other levels stay as they were. Current
-- is then the head of the first queue that has one: the queues of the levels before it are empty;
-- where all are, `x` stays current. The timer is off, and neither what runs nor
-- the time so far changes.
pub dequeue_mlfq-head :
    (s : Workers) (x : ℕ) (xs : List ℕ) (n : Node)
    → s.current ≡ x
    → s.heap x ≡ some n
    → n.tcb.priority < 4
    → IsQueue s.heap (s.mlfq_list n.tcb.priority) (x ∷ xs)
    → LeftQueue s x xs n.tcb.priority n
unfolding write set_next
dequeue_mlfq-head s x xs n cur here lt queue =
    let level = n.tcb.priority in
    let q = s.mlfq_list level in
    let (e, nz, apart, k, found, rest) = queue.chain in
    let ln = ap (load s.heap) cur ∙ load-some s.heap x n nz here in
    let level_ok : ltb level 4 ≡ true = ground arith in
    let nz0 = ap (λ a. a == 0) e ∙ ==_of_ne x 0 nz in
    let lf = ap (load s.heap) e ∙ load-some s.heap x k nz found in
    let h = write s.heap s.current (record n { next = 0 }) in
    let w : set_next s.heap s.current 0 ≡ ok h = rw ln in
    elim (Bool-cases (q.tail == q.head)) [
      | inl only ↦
          left_queue s x xs n level empty_deque cur (dequeue_mlfq_only s n h ln level_ok nz0 only w)
            (only-IsQueue h q.tail x xs queue.tail_last ((==_iff q.tail q.head).0 only ∙ e))
      | inr more ↦
          left_queue s x xs n level (record q { head = k.next }) cur
            (dequeue_mlfq_next s n h ln level_ok nz0 more k lf w)
            (record {
              chain =
                  subst (λ a. Chain (write s.heap a (record n { next = 0 })) k.next xs) (sym cur)
                    (write-Chain s.heap x (record n { next = 0 }) k.next xs apart rest);
              tail_last = rest-IsTail q.tail x xs queue.tail_last;
            })
    ]

-- The queue that has the next thread is the first that is not empty.
next_level :
    (queues : ℕ → Deque) (level old next : ℕ)
    → level < 4
    → ((j : ℕ) → j < level → (queues j).head ≡ 0)
    → (queues level).head ≢ 0
    → IsNext queues 0 4 old next
    → next ≡ (queues level).head
next_level queues level old next lt empty there (all_empty all e) =
    absurd (there (all level (omega arith) (omega arith)))
next_level queues level old next lt empty there (next_of k lo hi before head e) =
    e
    ∙ ap (λ j. (queues j).head)
        (same k level (λ l. head (empty k l)) (λ l. there (before level (omega arith) l)))
  where
    same : (k l : ℕ) → (k < l → ⊥) → (l < k → ⊥) → k ≡ l
    same k l not_less not_more = elim (Bool-cases (ltb k l)) [
      | inl less ↦ absurd (not_less (ground arith))
      | inr not_below ↦ elim (Bool-cases (ltb l k)) [
        | inl more ↦ absurd (not_more (ground arith))
        | inr not_above ↦ ground arith
      ]
    ]

-- What leaving the queue does, where the next thread `y` is at the same level.
pub left_for :
    (s : Workers) (x y : ℕ) (ys : List ℕ) (n : Node)
    → s.current ≡ x
    → s.heap x ≡ some n
    → n.tcb.priority < 4
    → IsQueue s.heap (s.mlfq_list n.tcb.priority) (x ∷ y ∷ ys)
    → ((j : ℕ) → j < n.tcb.priority → (s.mlfq_list j).head ≡ 0)
    → (s' : Workers) × (dequeue_mlfq s ≡ ok (x, s'))
      × (s'.heap ≡ write s.heap x (record n { next = 0 }))
      × (s'.cpu ≡ s.cpu)
      × (s'.time_ran ≡ s.time_ran)
      × (s'.current ≡ y)
      × IsQueue s'.heap (s'.mlfq_list n.tcb.priority) (y ∷ ys)
      × ((k : ℕ) → k ≢ n.tcb.priority → s'.mlfq_list k ≡ s.mlfq_list k)
left_for s x y ys n cur here lt queue above =
    let level = n.tcb.priority in
    let (s1, left, queue1, others, heap1, cpu1, time1, cur1, timer1) =
      dequeue_mlfq-head s x (y ∷ ys) n cur here lt queue in
    let empty : (j : ℕ) → j < level → (s1.mlfq_list j).head ≡ 0 =
      λ j lt'. ap (λ (d : Deque). d.head) (others j (less_ne j level lt')) ∙ above j lt' in
    let there : (s1.mlfq_list level).head ≢ 0 = λ z. queue1.chain.1 (sym queue1.chain.0 ∙ z) in
    (
      s1,
      left,
      heap1,
      cpu1,
      time1,
      next_level s1.mlfq_list level x s1.current lt empty there cur1 ∙ queue1.chain.0,
      queue1,
      others,
    )
  where
    less_ne : (j k : ℕ) → j < k → j ≢ k
    less_ne j k l z = omega arith
