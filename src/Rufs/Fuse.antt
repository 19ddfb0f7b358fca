-- ===== src/Rufs/Fuse.antt =====
-- The FUSE calls of project4/rufs.c. A path is the list of its bytes before the NUL. The calls
-- give the value that the C function returns; what `malloc`, `time` and the identity of the user
-- give are parameters.
pub mod Names
pub mod Attributes
pub mod Make
pub mod Transfer
pub mod Start
pub mod Mounted
pub mod Listed
pub mod Listing
use cs.Prelude.{
  ℕ, zero, suc, ◌+◌, ◌-◌, ◌*◌, ◌/◌, ◌%◌, ◌^◌, ◌≤◌, ◌<◌, bit_and, bit_or, ◌≡◌, refl, sym, ap, ◌∙◌,
  fun_ext, ◌≢◌, ◌↔◌, ◌⊎◌, inl, inr, Bool, true, false, ◌&&◌, ◌||◌, Option, none, some, List, [],
  ◌∷◌, ◌++◌, arith, ltb, leb, ◌==◌, if◌then◌else◌, ==_iff, ==_refl, ==_of_ne, Bool-cases, update, ℤ,
  pos, negsuc, signed_char, shift_right, rem_two, is_zero, is_one, Outcome, ok, exits, fault,
  out_of_fuel, ◌>>=◌, >>=-eq-ok, length, ok-transport,
}
use cs.Memory.{Mem}

-- `-ENOENT`.
abbrev pub minus_enoent : ℤ
minus_enoent = negsuc 1

-- A `size_t` as the `int` that a call returns.
unfoldable pub int_of : ℕ → ℤ
int_of n = let m = n % 2 ^ 32 in if ltb m (2 ^ 31) then pos m else negsuc (2 ^ 32 - 1 - m)

-- What the calls that make a file find around them: the bytes of a fresh inode, those of the block
-- that the n-th call of `dir_add` may take, and what the system calls give.
pub record Fresh : Type 0 where
  pub inode : Mem
  pub entries : ℕ → Mem
  pub uid : ℕ
  pub gid : ℕ
  pub now : ℕ

abbrev pub slash : ℕ
slash = 47

unfoldable pub reverse_onto : List ℕ → List ℕ → List ℕ
reverse_onto [] ys = ys
reverse_onto (x ∷ xs) ys = reverse_onto xs (x ∷ ys)

unfoldable pub drop_slashes : List ℕ → List ℕ
drop_slashes [] = []
drop_slashes (c ∷ cs) = let rest = drop_slashes cs in if c == slash then rest else c ∷ cs

-- The bytes up to the first slash, and those from it on.
unfoldable pub before_slash : List ℕ → List ℕ
before_slash [] = []
before_slash (c ∷ cs) = let rest = before_slash cs in if c == slash then [] else c ∷ rest

unfoldable pub from_slash : List ℕ → List ℕ
from_slash [] = []
from_slash (c ∷ cs) = let rest = from_slash cs in if c == slash then c ∷ cs else rest

-- A path that is empty but for slashes.
unfoldable pub slashes_or_dot : List ℕ → List ℕ
slashes_or_dot [] = 46 ∷ []
slashes_or_dot (_ ∷ _) = slash ∷ []

-- `basename` and `dirname` of libgen.h, on the path read from its end.
unfoldable pub base_name : List ℕ → List ℕ
base_name path = elim (drop_slashes (reverse_onto path [])) [
  | [] ↦ slashes_or_dot path
  | c ∷ cs ↦ reverse_onto (before_slash (c ∷ cs)) []
]

unfoldable pub dir_name : List ℕ → List ℕ
dir_name path = elim (drop_slashes (reverse_onto path [])) [
  | [] ↦ slashes_or_dot path
  | c ∷ cs ↦ elim (from_slash (c ∷ cs)) [
    | [] ↦ 46 ∷ []
    | e ∷ es ↦ elim (drop_slashes (e ∷ es)) [ [] ↦ slash ∷ [] | f ∷ fs ↦ reverse_onto (f ∷ fs) [] ]
  ]
]
