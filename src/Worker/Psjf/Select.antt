-- ===== src/Worker/Psjf/Select.antt =====
-- The choice of the next thread by `setCurrentlyRunningPSJF`.
use mathlib.Core.Path.{subst}
use mathlib.Core.Option.{some-injective}
use cs.Prelude.{
  length, ℕ, zero, suc, ◌≤◌, ◌<◌, ◌≡◌, refl, sym, ap, ◌∙◌, ◌⊎◌, inl, inr, Bool, true, false, ◌&&◌,
  some, List, [], ◌∷◌, arith, ltb, ◌==◌, ==_of_ne, Bool-cases, ok,
}
use cs.Worker.State.{Node, Heap, load}
use cs.Worker.Deque.Chain.{Chain, load-some}
use cs.Worker.Psjf.{is_ready, least_ready, set_currently_running_psjf, Workers}

-- `x` is one of the pointers.
abbrev pub In : ℕ → List ℕ → Type 0
In x [] = ⊥
In x (y ∷ ys) = (x ≡ y) ⊎ In x ys

-- Every ready thread of the nodes has a priority of `low` or more.
abbrev pub ReadyAbove : Heap → ℕ → List ℕ → Type 0
ReadyAbove h low [] = Unit {0}
ReadyAbove h low (x ∷ xs) =
    ((n : Node) → h x ≡ some n → is_ready n.tcb.status ≡ true → low ≤ n.tcb.priority_psjf)
    × ReadyAbove h low xs

-- The node `r` holds a ready thread of priority `low`.
pub record IsReadyAt (h : Heap) (r low : ℕ) : Type 0 where
  pub node : Node
  pub found : h r ≡ some node
  pub ready_now : is_ready node.tcb.status ≡ true
  pub priority_is : node.tcb.priority_psjf ≡ low

-- `r` is `old`, or it is a ready thread of the nodes and before `old`; no ready thread of the
-- nodes has a lower priority.
pub record Least (h : Heap) (xs : List ℕ) (old old_low r : ℕ) : Type 0 where
  pub low : ℕ
  pub at_most : low ≤ old_low
  pub above : ReadyAbove h low xs
  pub choice : (r ≡ old) × (low ≡ old_low) ⊎ In r xs × (low < old_low) × IsReadyAt h r low

and_true : (a b : Bool) → (a && b) ≡ true → (a ≡ true) × (b ≡ true)
and_true false b e = cc
and_true true false e = cc
and_true true true e = (refl, refl)

ltb_lt : (a b : ℕ) → ltb a b ≡ true → a < b
ltb_lt a b e = ground arith

not_lower : (a b : ℕ) (c : Bool) → (ltb a b && c) ≡ false → c ≡ true → b ≤ a
not_lower a b c e t = ground arith

extend_taken :
    (h : Heap) (x : ℕ) (xs : List ℕ) (old old_low r : ℕ) (n : Node)
    → h x ≡ some n
    → is_ready n.tcb.status ≡ true
    → n.tcb.priority_psjf < old_low
    → Least h xs x n.tcb.priority_psjf r
    → Least h (x ∷ xs) old old_low r
extend_taken h x xs old old_low r n found is_r lt l = record {
  low = l.low;
  at_most = omega arith;
  above = (
    (λ m e _.
        subst (λ (k : Node). l.low ≤ k.tcb.priority_psjf) (some-injective n m (sym found ∙ e))
          l.at_most),
    l.above,
  );
  choice = elim l.choice [
    | inl same ↦ inr (
      inl same.0,
      omega arith,
      record { node = n; found = ap h same.0 ∙ found; ready_now = is_r; priority_is = sym same.1 },
    )
    | inr other ↦ inr (inr other.0, omega arith, other.2)
  ];
}

extend_left :
    (h : Heap) (x : ℕ) (xs : List ℕ) (old old_low r : ℕ) (n : Node)
    → h x ≡ some n
    → (ltb n.tcb.priority_psjf old_low && is_ready n.tcb.status) ≡ false
    → Least h xs old old_low r
    → Least h (x ∷ xs) old old_low r
extend_left h x xs old old_low r n found left l = record {
  low = l.low;
  at_most = l.at_most;
  above = (
    (λ m e is_r.
        let same = some-injective n m (sym found ∙ e) in
        let low_m =
          subst (λ (k : Node). (ltb k.tcb.priority_psjf old_low && is_ready k.tcb.status) ≡ false)
            same left in
        let bound = not_lower m.tcb.priority_psjf old_low (is_ready m.tcb.status) low_m is_r in
        let cap = l.at_most in omega arith),
    l.above,
  );
  choice = elim l.choice [ inl same ↦ inl same | inr other ↦ inr (inr other.0, other.1, other.2) ];
}

least_ready_take :
    (fuel : ℕ) (h : Heap) (p low old : ℕ) (n : Node)
    → (p == 0) ≡ false
    → load h p ≡ ok n
    → (ltb n.tcb.priority_psjf low && is_ready n.tcb.status) ≡ true
    → least_ready (suc fuel) h p low old ≡ least_ready fuel h n.next n.tcb.priority_psjf p
unfolding least_ready
least_ready_take fuel h p low old n nz ln taken = ground arith

least_ready_skip :
    (fuel : ℕ) (h : Heap) (p low old : ℕ) (n : Node)
    → (p == 0) ≡ false
    → load h p ≡ ok n
    → (ltb n.tcb.priority_psjf low && is_ready n.tcb.status) ≡ false
    → least_ready (suc fuel) h p low old ≡ least_ready fuel h n.next low old
unfolding least_ready
least_ready_skip fuel h p low old n nz ln skipped = ground arith

pub least_ready-Least :
    (fuel : ℕ) (h : Heap) (p low old : ℕ) (xs : List ℕ)
    → Chain h p xs
    → length xs < fuel
    → (r : ℕ) × (least_ready fuel h p low old ≡ ok r) × Least h xs old low r
unfolding least_ready
least_ready-Least zero h p low old xs c f = absurd (omega arith)
least_ready-Least (suc fuel) h p low old [] c f =
    (old, rw c, record { low = low; at_most = omega arith; above = tt; choice = inl (refl, refl) })
least_ready-Least (suc fuel) h p low old (x ∷ xs) (e, nz, apart, n, found, rest) f =
    let nz0 = ap (λ a. a == 0) e ∙ ==_of_ne x 0 nz in
    let ln = ap (load h) e ∙ load-some h x n nz found in
    elim (Bool-cases (ltb n.tcb.priority_psjf low && is_ready n.tcb.status)) [
      | inl taken ↦
          let (r, run, l) =
            least_ready-Least fuel h n.next n.tcb.priority_psjf p xs rest (omega arith) in
          let both = and_true (ltb n.tcb.priority_psjf low) (is_ready n.tcb.status) taken in
          (
            r,
            least_ready_take fuel h p low old n nz0 ln taken ∙ run,
            extend_taken h x xs old low r n found both.1 (ltb_lt n.tcb.priority_psjf low both.0)
                (subst (λ a. Least h xs a n.tcb.priority_psjf r) e l),
          )
      | inr left ↦
          let (r, run, l) = least_ready-Least fuel h n.next low old xs rest (omega arith) in
          (
            r,
            least_ready_skip fuel h p low old n nz0 ln left ∙ run,
            extend_left h x xs old low r n found left l,
          )
    ]

-- On a queue of one node or more, the node that becomes current is the head, where no ready
-- thread of the queue has a lower priority, or else a ready thread of the queue, of a priority
-- below the head's and not above that of any ready thread. Nothing else changes.
pub set_currently_running_psjf-Least :
    (fuel : ℕ) (s : Workers) (x : ℕ) (xs : List ℕ) (n : Node)
    → Chain s.heap s.psjf_queue.head (x ∷ xs)
    → s.heap x ≡ some n
    → suc (length xs) < fuel
    → (r : ℕ) × (set_currently_running_psjf fuel s ≡ ok (record s { current = r }))
      × Least s.heap (x ∷ xs) x n.tcb.priority_psjf r
unfolding set_currently_running_psjf
set_currently_running_psjf-Least fuel s x xs n c here f =
    let (r, run, l) =
      least_ready-Least fuel s.heap s.psjf_queue.head n.tcb.priority_psjf x (x ∷ xs) c f in
    let e = c.0 in
    let nz = ap (λ a. a == 0) e ∙ ==_of_ne x 0 c.1 in
    let ln = ap (load s.heap) e ∙ load-some s.heap x n c.1 here in
    let run' = ap (λ a. least_ready fuel s.heap s.psjf_queue.head n.tcb.priority_psjf a) e ∙ run in
    (r, chosen fuel s n r nz ln run', l)
  where
    chosen :
        (fuel : ℕ) (s : Workers) (n : Node) (r : ℕ)
        → (s.psjf_queue.head == 0) ≡ false
        → load s.heap s.psjf_queue.head ≡ ok n
        → least_ready fuel s.heap s.psjf_queue.head n.tcb.priority_psjf s.psjf_queue.head ≡ ok r
        → set_currently_running_psjf fuel s ≡ ok (record s { current = r })
    chosen fuel s n r nz ln run = ground arith
