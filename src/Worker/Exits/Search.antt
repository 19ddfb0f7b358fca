-- ===== src/Worker/Exits/Search.antt =====
-- The search of a queue for a thread.
use mathlib.Core.Option.{some-injective}
use cs.Prelude.{
  length, ℕ, zero, suc, ◌<◌, ◌≡◌, refl, sym, ap, ◌∙◌, ◌≢◌, ◌⊎◌, inl, inr, true, false, some, List,
  [], ◌∷◌, arith, ◌==◌, ==_iff, ==_of_ne, Bool-cases, ok,
}
use cs.Worker.State.{Node, Heap, load}
use cs.Worker.Deque.Chain.{Chain, load-some}
use cs.Worker.Exits.{find_thread}

-- No thread of the nodes has the id `thread`.
abbrev pub NoThread : Heap → ℕ → List ℕ → Type 0
NoThread h thread [] = Unit {0}
NoThread h thread (x ∷ xs) = ((n : Node) → h x ≡ some n → n.tcb.id ≢ thread) × NoThread h thread xs

-- `r` is the first of the nodes whose thread has the id `thread`.
abbrev pub FirstThread : Heap → ℕ → ℕ → List ℕ → Type 0
FirstThread h thread r [] = ⊥
FirstThread h thread r (x ∷ xs) =
    (r ≡ x) × ((n : Node) × (h x ≡ some n) × (n.tcb.id ≡ thread))
    ⊎ ((n : Node) → h x ≡ some n → n.tcb.id ≢ thread) × FirstThread h thread r xs

pub find_step_hit :
    (fuel : ℕ) (h : Heap) (p thread : ℕ) (n : Node)
    → (p == 0) ≡ false
    → load h p ≡ ok n
    → (n.tcb.id == thread) ≡ true
    → find_thread (suc fuel) h p thread ≡ ok p
unfolding find_thread
find_step_hit fuel h p thread n nz ln hit = ground arith

find_step_miss :
    (fuel : ℕ) (h : Heap) (p thread : ℕ) (n : Node)
    → (p == 0) ≡ false
    → load h p ≡ ok n
    → (n.tcb.id == thread) ≡ false
    → find_thread (suc fuel) h p thread ≡ find_thread fuel h n.next thread
unfolding find_thread
find_step_miss fuel h p thread n nz ln miss = ground arith

not_id :
    (h : Heap) (x thread : ℕ) (n : Node)
    → h x ≡ some n
    → (n.tcb.id == thread) ≡ false
    → (m : Node) → h x ≡ some m
    → m.tcb.id ≢ thread
not_id h x thread n found miss m e same =
    let id_same = ap (λ (k : Node). k.tcb.id) (some-injective n m (sym found ∙ e)) ∙ same in
    let hit = (==_iff n.tcb.id thread).1 id_same in cc

-- On a list of nodes the search ends: at the first node of the thread, or at 0 where there is
-- none.
pub find_thread_lem :
    (fuel : ℕ) (h : Heap) (p thread : ℕ) (xs : List ℕ)
    → Chain h p xs
    → length xs < fuel
    → (r : ℕ) × (find_thread fuel h p thread ≡ ok r)
      × ((r ≡ 0) × NoThread h thread xs ⊎ (r ≢ 0) × FirstThread h thread r xs)
unfolding find_thread
find_thread_lem zero h p thread xs c f = absurd (omega arith)
find_thread_lem (suc fuel) h p thread [] c f = (0, rw c, inl (refl, tt))
find_thread_lem (suc fuel) h p thread (x ∷ xs) (e, nz, apart, n, found, rest) f =
    let nz0 = ap (λ a. a == 0) e ∙ ==_of_ne x 0 nz in
    let ln = ap (load h) e ∙ load-some h x n nz found in
    let (r, run, end) = find_thread_lem fuel h n.next thread xs rest (omega arith) in
    elim (Bool-cases (n.tcb.id == thread)) [
      | inl hit ↦ (
        x,
        find_step_hit fuel h p thread n nz0 ln hit ∙ ap (λ a. ok a) e,
        inr (nz, inl (refl, (n, found, (==_iff n.tcb.id thread).0 hit))),
      )
      | inr miss ↦ (
        r,
        find_step_miss fuel h p thread n nz0 ln miss ∙ run,
        elim end [
          | inl gone ↦ inl (gone.0, (not_id h x thread n found miss, gone.1))
          | inr got ↦ inr (got.0, inr (not_id h x thread n found miss, got.1))
        ],
      )
    ]
