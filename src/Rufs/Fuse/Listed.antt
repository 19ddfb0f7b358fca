-- ===== src/Rufs/Fuse/Listed.antt =====
-- The names that `rufs_readdir` of project4/rufs.c lists of a block.
use mathlib.Core.List.{Memᴰ}
use cs.Prelude.{
  ℕ, zero, suc, ◌+◌, ◌-◌, ◌*◌, ◌≤◌, ◌<◌, ◌≡◌, refl, ap, ◌∙◌, ◌≢◌, inl, inr, Bool, true, false, ◌&&◌,
  List, [], ◌∷◌, arith, ◌==◌, ==_iff, ==_refl, Bool-cases, ok,
}
use cs.Memory.{Mem}
use cs.Rufs.Directory.{load_half, same_string, entry_matches}
use cs.Rufs.Directory.Others.{NoZero, nothing, more, same_string_unique}
use cs.Rufs.Fuse.Attributes.{string_at, names_in_block}

-- A zero byte ends the string.
abbrev pub Ends : Mem → ℕ → ℕ → Type 0
Ends m a stop = (x : ℕ) × (a ≤ x) × (x < stop) × (m x ≡ 0)

string_at-total :
    (m : Mem) (a n : ℕ)
    → Ends m a (a + n)
    → (xs : List ℕ) × (string_at m a n ≡ ok xs) × (same_string m a xs ≡ true) × NoZero xs
unfolding string_at same_string
string_at-total m a zero (x, lo, hi, e) = absurd (omega arith)
string_at-total m a (suc n) (x, lo, hi, e) = elim (Bool-cases (m a == 0)) [
  | inl here ↦ ([], rw (string_at, here) refl, here, nothing)
  | inr on ↦
      let (xs, run, same, whole) =
        string_at-total m (a + 1) n (x, after m a x on e lo, omega arith, e) in
      (
        m a ∷ xs,
        rw (string_at, on) (rw run refl),
        rw (==_refl (m a), same) refl,
        more (unequal (m a) 0 on) whole,
      )
]
  where
    unequal : (x y : ℕ) → (x == y) ≡ false → x ≢ y
    unequal x y e z = ground arith

    after : (m : Mem) (a x : ℕ) → (m a == 0) ≡ false → m x ≡ 0 → a ≤ x → a + 1 ≤ x
    after m a x on e lo = elim (Bool-cases (a == x)) [
      | inl same ↦ absurd (unequal (m a) 0 on (ap m ((==_iff a x).0 same) ∙ e))
      | inr far ↦ ground arith
    ]

-- The entry `j` of a block is in use and has the name.
pub record HoldsName (m : Mem) (j : ℕ) (name : List ℕ) : Type 0 where
  pub valid : load_half m (256 * j + 2) ≡ 1
  pub same : same_string m (256 * j + 4) name ≡ true

pub matched :
    (m : Mem) (j : ℕ) (name : List ℕ) (len : ℕ)
    → entry_matches m j name len ≡ true
    → HoldsName m j name
unfolding entry_matches
matched m j name len e =
    let valid = load_half m (256 * j + 2) == 1 in
    let size = load_half m (256 * j + 254) == len in
    let same = same_string m (256 * j + 4) name in
    record {
      valid =
          (==_iff (load_half m (256 * j + 2)) 1).0
            (first valid size (first (valid && size) same e));
      same = second (valid && size) same e;
    }
  where
    first : (a b : Bool) → (a && b) ≡ true → a ≡ true
    first a b e = ground arith

    second : (a b : Bool) → (a && b) ≡ true → b ≡ true
    second a b e = ground arith

pub matches :
    (m : Mem) (j : ℕ) (name : List ℕ)
    → HoldsName m j name
    → entry_matches m j name (load_half m (256 * j + 254)) ≡ true
unfolding entry_matches
matches m j name h = rw (h.valid, h.same, ==_refl (load_half m (256 * j + 254))) refl

-- The names of the entries `j` to `j + n` of a block.
pub record Lists (m : Mem) (j n : ℕ) (names : List (List ℕ)) : Type 0 where
  pub complete :
      (i : ℕ) (name : List ℕ)
      → j ≤ i
      → i < j + n
      → NoZero name
      → HoldsName m i name
      → Memᴰ name names
  pub sound :
      (name : List ℕ) → Memᴰ name names → (i : ℕ) × (j ≤ i) × (i < j + n) × HoldsName m i name

-- The names in the block end before it does.
abbrev pub Named : Mem → Type 0
Named m = (i : ℕ) → i < 16 → load_half m (256 * i + 2) ≡ 1 → Ends m (256 * i + 4) 4096

pub names_in_block-Lists :
    (m : Mem) (j n : ℕ)
    → Named m
    → j + n ≤ 16
    → (names : List (List ℕ)) × (names_in_block m j n ≡ ok names) × Lists m j n names
unfolding names_in_block
names_in_block-Lists m j zero named le = (
  [],
  refl,
  record { complete = λ i name lo hi whole h. absurd (omega arith); sound = λ name h. elim h [ ] },
)
names_in_block-Lists m j (suc n) named le =
    let (names, run, l) = names_in_block-Lists m (j + 1) n named (omega arith) in
    elim (Bool-cases (load_half m (256 * j + 2) == 1)) [
      | inl used ↦
          let valid = (==_iff (load_half m (256 * j + 2)) 1).0 used in
          let (x, lo, hi, e) = named j (omega arith) valid in
          let (xs, read, same, whole) =
            string_at-total m (256 * j + 4) (4096 - (256 * j + 4)) (x, lo, omega arith, e) in
          (
            xs ∷ names,
            rw (names_in_block, used) (rw read (rw run refl)),
            record {
              complete = λ i name lo' hi' whole' h. elim (Bool-cases (j == i)) [
                | inl here ↦ Memᴰ.head (
                    same_string_unique m (256 * j + 4) name xs whole' whole
                      (ap (λ k. same_string m (256 * k + 4) name) ((==_iff j i).0 here) ∙ h.same)
                      same)
                | inr far ↦ Memᴰ.tail (l.complete i name (ground arith) (omega arith) whole' h)
              ];
              sound = λ name h. elim h [
                | Memᴰ.head is ↦ (
                  j,
                  omega arith,
                  omega arith,
                  record { valid = valid; same = ap (same_string m (256 * j + 4)) is ∙ same },
                )
                | Memᴰ.tail later ↦
                    let (i, lo', hi', there) = l.sound name later in
                    (i, omega arith, omega arith, there)
              ];
            },
          )
      | inr unused ↦ (
        names,
        rw (names_in_block, unused) run,
        record {
          complete = λ i name lo hi whole h. elim (Bool-cases (j == i)) [
            | inl here ↦ absurd (
                unequal (load_half m (256 * j + 2)) 1 unused
                  (ap (λ k. load_half m (256 * k + 2)) ((==_iff j i).0 here) ∙ h.valid))
            | inr far ↦ l.complete i name (ground arith) (omega arith) whole h
          ];
          sound = λ name h.
              let (i, lo, hi, there) = l.sound name h in (i, omega arith, omega arith, there);
        },
      )
    ]
  where
    unequal : (x y : ℕ) → (x == y) ≡ false → x ≢ y
    unequal x y e z = ground arith
