-- ===== src/Worker/Deque/Chain.antt =====
-- Linked nodes as lists of pointers.
use cs.Prelude.{
  length, ℕ, zero, suc, ◌<◌, ◌≡◌, refl, sym, ap, ◌∙◌, ◌≢◌, some, List, [], ◌∷◌, ◌++◌, arith,
  ==_refl, ==_of_ne, ok,
}
use cs.Worker.State.{Node, Heap, Deque, load, write}
use cs.Worker.Deque.{last_node}

-- `x` is none of the pointers.
abbrev pub NotIn : ℕ → List ℕ → Type 0
NotIn x [] = Unit {0}
NotIn x (y ∷ ys) = (x ≢ y) × NotIn x ys

-- From the pointer `p` the nodes `xs` follow one another, and NULL comes last.
abbrev pub Chain : Heap → ℕ → List ℕ → Type 0
Chain h p [] = p ≡ 0
Chain h p (x ∷ xs) =
    (p ≡ x) × (x ≢ 0) × NotIn x xs × (n : Node) × (h x ≡ some n) × Chain h n.next xs

-- `t` is none of the nodes but, it may be, the last.
abbrev pub IsTail : ℕ → List ℕ → Type 0
IsTail t [] = Unit {0}
IsTail t (x ∷ []) = Unit {0}
IsTail t (x ∷ y ∷ xs) = (t ≢ x) × IsTail t (y ∷ xs)

-- The queue holds the nodes `xs`, in order.
pub record IsQueue (h : Heap) (q : Deque) (xs : List ℕ) : Type 0 where
  pub chain : Chain h q.head xs
  pub tail_last : IsTail q.tail xs

pub load-some : (h : Heap) (p : ℕ) (n : Node) → p ≢ 0 → h p ≡ some n → load h p ≡ ok n
unfolding load
load-some h p n ne e = rw (==_of_ne p 0 ne, e)

-- A write elsewhere leaves a chain alone.
pub write-Chain :
    (h : Heap) (a : ℕ) (n : Node) (p : ℕ) (xs : List ℕ)
    → NotIn a xs
    → Chain h p xs
    → Chain (write h a n) p xs
unfolding write
write-Chain h a n p [] out c = c
write-Chain h a n p (x ∷ xs) (ne, out) (e, nz, apart, m, found, rest) =
    (e, nz, apart, m, stays, write-Chain h a n m.next xs out rest)
  where
    stays : write h a n x ≡ some m
    stays = rw (==_of_ne a x ne, found)

-- The last of the nodes `x ∷ xs`.
abbrev pub last : ℕ → List ℕ → ℕ
last x [] = x
last x (y ∷ ys) = last y ys

pub last_node_step :
    (fuel : ℕ) (h : Heap) (p : ℕ) (n : Node)
    → load h p ≡ ok n
    → n.next ≢ 0
    → last_node (suc fuel) h p ≡ last_node fuel h n.next
unfolding last_node
last_node_step fuel h p n e ne = rw e (ground arith)

pub last_node-last :
    (fuel : ℕ) (h : Heap) (x : ℕ) (xs : List ℕ)
    → Chain h x (x ∷ xs)
    → length xs < fuel
    → last_node fuel h x ≡ ok (last x xs)
unfolding last_node
last_node-last zero h x xs c f = absurd (omega arith)
last_node-last (suc fuel) h x [] (e, nz, apart, n, found, rest) f =
    rw (load-some h x n nz found, rest)
last_node-last (suc fuel) h x (y ∷ ys) (e, nz, apart, n, found, rest) f =
    let next_ne : n.next ≢ 0 = λ z. rest.1 (sym rest.0 ∙ z) in
    last_node_step fuel h x n (load-some h x n nz found) next_ne
    ∙ ap (λ p. last_node fuel h p) rest.0
    ∙ last_node-last fuel h y ys (refl, rest.1, rest.2, rest.3, rest.4, rest.5) (omega arith)

pub last-ne_zero : (h : Heap) (p x : ℕ) (xs : List ℕ) → Chain h p (x ∷ xs) → last x xs ≢ 0
last-ne_zero h p x [] (e, nz, apart, n, found, rest) = nz
last-ne_zero h p x (y ∷ ys) (e, nz, apart, n, found, rest) = last-ne_zero h n.next y ys rest

-- The last node of a chain points to NULL.
pub last-next :
    (h : Heap) (p x : ℕ) (xs : List ℕ)
    → Chain h p (x ∷ xs)
    → (n : Node) × (h (last x xs) ≡ some n) × (n.next ≡ 0)
last-next h p x [] (e, nz, apart, n, found, rest) = (n, found, rest)
last-next h p x (y ∷ ys) (e, nz, apart, n, found, rest) = last-next h n.next y ys rest

pub last-NotIn : (x y : ℕ) (ys : List ℕ) → NotIn x (y ∷ ys) → x ≢ last y ys
last-NotIn x y [] out = out.0
last-NotIn x y (z ∷ zs) out = last-NotIn x z zs out.1

pub NotIn-append : (x y : ℕ) (ys : List ℕ) → NotIn x ys → x ≢ y → NotIn x (ys ++ y ∷ [])
NotIn-append x y [] out ne = (ne, tt)
NotIn-append x y (z ∷ zs) out ne = (out.0, NotIn-append x y zs out.1 ne)

-- A node behind the last one.
pub append-Chain :
    (h : Heap) (p x a : ℕ) (xs : List ℕ) (n m : Node)
    → Chain h p (x ∷ xs)
    → h (last x xs) ≡ some n
    → a ≢ 0
    → NotIn a (x ∷ xs)
    → h a ≡ some m
    → m.next ≡ 0
    → Chain (write h (last x xs) (record n { next = a })) p (x ∷ xs ++ a ∷ [])
unfolding write
append-Chain h p x a [] n m (e, nz, apart, k, found, rest) here nza out new end = (
  e,
  nz,
  (λ z. out.0 (sym z), tt),
  record n { next = a },
  rw (==_refl x),
  (refl, nza, tt, m, rw (==_of_ne x a (λ z. out.0 (sym z)), new), end),
)
append-Chain h p x a (y ∷ ys) n m (e, nz, apart, k, found, rest) here nza out new end = (
  e,
  nz,
  (apart.0, NotIn-append x a ys apart.1 (λ z. out.0 (sym z))),
  k,
  rw (==_of_ne (last y ys) x (λ z. last-NotIn x y ys apart (sym z)), found),
  append-Chain h k.next y a ys n m rest here nza out.1 new end,
)
