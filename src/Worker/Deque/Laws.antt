-- ===== src/Worker/Deque/Laws.antt =====
-- The linked queues as lists of nodes: enqueueing and dequeueing.
use cs.Prelude.{
  ℕ, ◌≤◌, ◌≡◌, refl, sym, ap, ◌∙◌, ◌≢◌, ◌⊎◌, inl, inr, true, false, some, List, [], ◌∷◌, ◌++◌,
  arith, ◌==◌, ==_iff, ==_refl, ==_of_ne, Bool-cases, ok, length,
}
use mathlib.Core.Option.{some-injective}
use cs.Worker.State.{Node, Heap, Deque, empty_deque, write}
use cs.Worker.Deque.{set_next, enqueue_mutex, dequeue_mutex}
use cs.Worker.Deque.Chain.{
  NotIn, Chain, IsTail, IsQueue, load-some, write-Chain, last, last_node-last, last-ne_zero,
  last-next, append-Chain,
}

-- `h'` is `h` but for the link of one node of `xs`, and the control blocks stay.
abbrev pub KeepsTcbs : Heap → Heap → Type 0
KeepsTcbs h h' =
    (a : ℕ)
    → (h' a ≡ h a) ⊎ ((n : Node) × (m : Node) × (h a ≡ some n) × (h' a ≡ some m) × (m.tcb ≡ n.tcb))

written : (h : Heap) (a : ℕ) (n : Node) → write h a n a ≡ some n
unfolding write
written h a n = rw (==_refl a)

append-IsTail : (a x : ℕ) (xs : List ℕ) → NotIn a (x ∷ xs) → IsTail a (x ∷ xs ++ a ∷ [])
append-IsTail a x [] out = (out.0, tt)
append-IsTail a x (y ∷ ys) out = (out.0, append-IsTail a y ys out.1)

relink-KeepsTcbs :
    (h : Heap) (p q : ℕ) (n : Node) → h p ≡ some n → KeepsTcbs h (write h p (record n { next = q }))
unfolding write
relink-KeepsTcbs h p q n e a = elim (Bool-cases (p == a)) [
  | inl same ↦ inr (n, record n { next = q }, (ap h (sym ((==_iff p a).0 same)) ∙ e), rw same, refl)
  | inr other ↦ inl (rw other)
]

last_other : (b x : ℕ) (xs : List ℕ) → NotIn b (x ∷ xs) → last x xs ≢ b
last_other b x [] out = λ z. out.0 (sym z)
last_other b x (y ∷ ys) out = last_other b y ys out.1

write_other : (h : Heap) (p b : ℕ) (n : Node) → p ≢ b → write h p n b ≡ h b
unfolding write
write_other h p b n ne = rw (==_of_ne p b ne) refl

-- A node that is in no queue, behind a queue of nodes: the list grows at its end. The walk to
-- the end takes fewer steps than the queue has nodes. The nodes that are not of the queue stay as
-- they were.
pub enqueue_mutex-append :
    (fuel : ℕ) (h : Heap) (q : Deque) (xs : List ℕ) (a : ℕ) (m : Node)
    → IsQueue h q xs
    → length xs ≤ fuel
    → a ≢ 0
    → NotIn a xs
    → h a ≡ some m
    → m.next ≡ 0
    → (h' : Heap) × (q' : Deque) × (enqueue_mutex fuel h a q ≡ ok (h', q'))
      × IsQueue h' q' (xs ++ a ∷ [])
      × KeepsTcbs h h'
      × ((b : ℕ) → NotIn b xs → h' b ≡ h b)
unfolding enqueue_mutex set_next
enqueue_mutex-append fuel h q [] a m s f nza out new end = (
  h,
  record { head = a; tail = a },
  rw s.chain,
  record { chain = (refl, nza, tt, m, new, end); tail_last = tt },
  λ b. inl refl,
  λ b _. refl,
)
enqueue_mutex-append fuel h q (x ∷ xs) a m s f nza out new end =
    let (e, nz, apart, n0, found, rest) = s.chain in
    let c : Chain h x (x ∷ xs) = (refl, nz, apart, n0, found, rest) in
    let (n, here, stop) = last-next h x x xs c in
    let lz = last-ne_zero h x x xs c in
    (
      write h (last x xs) (record n { next = a }),
      record q { tail = a },
      rw (
        e,
        ==_of_ne x 0 nz,
        last_node-last fuel h x xs c (omega arith),
        load-some h (last x xs) n lz here,
      ),
      record {
        chain = append-Chain h q.head x a xs n m s.chain here nza out new end;
        tail_last = append-IsTail a x xs out;
      },
      relink-KeepsTcbs h (last x xs) a n here,
      λ b away. write_other h (last x xs) b (record n { next = a }) (last_other b x xs away),
    )

abbrev pub Dequeued : Heap → Deque → ℕ → List ℕ → Type 0
Dequeued h q x xs =
    (h' : Heap) × (q' : Deque) × (dequeue_mutex h q ≡ ok (x, h', q'))
    × IsQueue h' q' xs
    × KeepsTcbs h h'
    × (n : Node) × (h' x ≡ some n)
    × (n.next ≡ 0)
    × ((b : ℕ) → x ≢ b → h' b ≡ h b)

-- The branch that moves the head on.
dequeue_mutex_next :
    (h : Heap) (q : Deque) (x : ℕ) (xs : List ℕ)
    → Chain h q.head (x ∷ xs)
    → IsTail q.tail xs
    → (x == q.tail) ≡ false
    → Dequeued h q x xs
unfolding dequeue_mutex set_next
dequeue_mutex_next h q x xs (e, nz, apart, n, found, rest) t ne = (
  write h x (record n { next = 0 }),
  record q { head = n.next },
  rw (e, ==_of_ne x 0 nz, ne, load-some h x n nz found),
  record { chain = write-Chain h x (record n { next = 0 }) n.next xs apart rest; tail_last = t },
  relink-KeepsTcbs h x 0 n found,
  record n { next = 0 },
  written h x (record n { next = 0 }),
  refl,
  λ b ne. write_other h x b (record n { next = 0 }) ne,
)

-- The branch for a head that is the tail too.
dequeue_mutex_only :
    (h : Heap) (q : Deque) (x : ℕ)
    → Chain h q.head (x ∷ [])
    → (x == q.tail) ≡ true
    → Dequeued h q x []
unfolding dequeue_mutex
dequeue_mutex_only h q x (e, nz, apart, n, found, rest) same =
    let t : q.tail ≡ x = sym ((==_iff x q.tail).0 same) in
    (
      h,
      empty_deque,
      rw (e, ==_of_ne x 0 nz, same, t),
      record { chain = refl; tail_last = tt },
      λ a. inl refl,
      n,
      found,
      rest,
      λ b ne. refl,
    )

-- From a queue of one or more nodes the first goes out, with a NULL link. The others stay in
-- order, and the control blocks and every other node stay as they were.
pub dequeue_mutex-head :
    (h : Heap) (q : Deque) (x : ℕ) (xs : List ℕ) → IsQueue h q (x ∷ xs) → Dequeued h q x xs
dequeue_mutex-head h q x [] s = elim (Bool-cases (x == q.tail)) [
  | inl same ↦ dequeue_mutex_only h q x s.chain same
  | inr other ↦ dequeue_mutex_next h q x [] s.chain tt other
]
dequeue_mutex-head h q x (y ∷ ys) s =
    dequeue_mutex_next h q x (y ∷ ys) s.chain s.tail_last.1
      (==_of_ne x q.tail (λ z. s.tail_last.0 (sym z)))

pub dequeue_mutex-nil : (h : Heap) (q : Deque) → IsQueue h q [] → dequeue_mutex h q ≡ ok (0, h, q)
unfolding dequeue_mutex
dequeue_mutex-nil h q s = rw s.chain

-- A node of `h` is a node of `h'`, with its control block.
pub kept_tcb :
    (h h' : Heap) (y : ℕ) (n : Node)
    → h y ≡ some n
    → KeepsTcbs h h'
    → (m : Node) × (h' y ≡ some m) × (m.tcb ≡ n.tcb)
kept_tcb h h' y n here keeps = elim (keeps y) [
  | inl same ↦ (n, same ∙ here, refl)
  | inr (k, m, old, new, tcb) ↦
      (m, new, tcb ∙ ap (λ (a : Node). a.tcb) (some-injective k n (sym old ∙ here)))
]

pub KeepsTcbs-trans : (h h' h'' : Heap) → KeepsTcbs h h' → KeepsTcbs h' h'' → KeepsTcbs h h''
KeepsTcbs-trans h h' h'' p q a = elim (p a) [
  | inl same ↦ elim (q a) [
    | inl same' ↦ inl (same' ∙ same)
    | inr (n, m, old, new, tcb) ↦ inr (n, m, sym same ∙ old, new, tcb)
  ]
  | inr (n, m, old, new, tcb) ↦ elim (q a) [
    | inl same' ↦ inr (n, m, old, same' ∙ new, tcb)
    | inr (n', m', old', new', tcb') ↦ inr (
      n,
      m',
      old,
      new',
      tcb' ∙ ap (λ (k : Node). k.tcb) (some-injective n' m (sym old' ∙ new)) ∙ tcb,
    )
  ]
]
