-- ===== src/Rufs/Fuse/Names.antt =====
-- The parts of a path that is a slash and a name.
use cs.Prelude.{ℕ, ◌≡◌, refl, sym, ap, ◌∙◌, ◌≢◌, List, [], ◌∷◌, ◌++◌, ==_of_ne}
use cs.Rufs.Directory.{tokens}
use cs.Rufs.Fuse.{slash, reverse_onto, drop_slashes, before_slash, from_slash, base_name, dir_name}

-- No byte is a slash.
pub data NoSlash : List ℕ → Type 0 where
  empty : NoSlash []
  also : {c : ℕ} {cs : List ℕ} → c ≢ slash → NoSlash cs → NoSlash (c ∷ cs)

append_nil : (xs : List ℕ) → xs ++ [] ≡ xs
append_nil [] = refl
append_nil (x ∷ xs) = rw (append_nil xs) refl

append_snoc : (xs : List ℕ) (c : ℕ) (ys : List ℕ) → (xs ++ (c ∷ [])) ++ ys ≡ xs ++ (c ∷ ys)
append_snoc [] c ys = refl
append_snoc (x ∷ xs) c ys = rw (append_snoc xs c ys) refl

reverse_onto_twice :
    (xs ys zs : List ℕ) → reverse_onto (reverse_onto xs ys) zs ≡ reverse_onto ys (xs ++ zs)
unfolding reverse_onto
reverse_onto_twice [] ys zs = refl
reverse_onto_twice (x ∷ xs) ys zs = reverse_onto_twice xs (x ∷ ys) zs

-- The last byte of the name is not a slash.
drop_slashes-reverse_onto :
    (xs : List ℕ) (y : ℕ) (ys : List ℕ)
    → NoSlash xs
    → y ≢ slash
    → (z : ℕ) × (zs : List ℕ) × (drop_slashes (reverse_onto xs (y ∷ ys)) ≡ z ∷ zs)
      × (reverse_onto xs (y ∷ ys) ≡ z ∷ zs)
unfolding reverse_onto drop_slashes
drop_slashes-reverse_onto [] y ys empty ne = let e = ==_of_ne y slash ne in (y, ys, rw e refl, refl)
drop_slashes-reverse_onto (x ∷ xs) y ys (also apart rest) ne =
    drop_slashes-reverse_onto xs x (y ∷ ys) rest apart

before_slash-reverse_onto :
    (xs ys : List ℕ)
    → NoSlash xs
    → before_slash (reverse_onto xs ys) ≡ reverse_onto xs (before_slash ys)
unfolding reverse_onto before_slash
before_slash-reverse_onto [] ys empty = refl
before_slash-reverse_onto (x ∷ xs) ys (also ne rest) =
    let e = ==_of_ne x slash ne in
    before_slash-reverse_onto xs (x ∷ ys) rest ∙ ap (reverse_onto xs) (rw e refl)

from_slash-reverse_onto :
    (xs ys : List ℕ) → NoSlash xs → from_slash (reverse_onto xs ys) ≡ from_slash ys
unfolding reverse_onto from_slash
from_slash-reverse_onto [] ys empty = refl
from_slash-reverse_onto (x ∷ xs) ys (also ne rest) =
    let e = ==_of_ne x slash ne in from_slash-reverse_onto xs (x ∷ ys) rest ∙ rw e refl

tokens-NoSlash : (begun xs : List ℕ) → NoSlash xs → tokens begun xs ≡ tokens (begun ++ xs) []
unfolding tokens
tokens-NoSlash begun [] empty = ap (λ b. tokens b []) (sym (append_nil begun))
tokens-NoSlash begun (x ∷ xs) (also ne rest) =
    let e = ==_of_ne x slash ne in
    rw (tokens, e)
      (tokens-NoSlash (begun ++ x ∷ []) xs rest ∙ ap (λ b. tokens b []) (append_snoc begun x xs))

-- The name, its directory and its tokens, for a path that is a slash and a name without one.
module _ (c : ℕ) (cs : List ℕ) (name : NoSlash (c ∷ cs)) where
  ends :
      (z : ℕ) × (zs : List ℕ) × (drop_slashes (reverse_onto (slash ∷ c ∷ cs) []) ≡ z ∷ zs)
      × (reverse_onto (slash ∷ c ∷ cs) [] ≡ z ∷ zs)
  unfolding reverse_onto
  ends = elim name [ also ne rest ↦ drop_slashes-reverse_onto cs c (slash ∷ []) rest ne ]

  pub base_name-root : base_name (slash ∷ c ∷ cs) ≡ c ∷ cs
  unfolding base_name reverse_onto before_slash
  base_name-root =
      let (z, zs, e, f) = ends in
      rw (base_name, e)
        (ap (λ l. reverse_onto (before_slash l) []) (sym f)
          ∙ ap (λ l. reverse_onto l []) (before_slash-reverse_onto (c ∷ cs) (slash ∷ []) name)
          ∙ reverse_onto_twice (c ∷ cs) [] []
          ∙ append_nil (c ∷ cs))

  pub dir_name-root : dir_name (slash ∷ c ∷ cs) ≡ slash ∷ []
  unfolding dir_name reverse_onto from_slash drop_slashes
  dir_name-root =
      let (z, zs, e, f) = ends in
      let g : from_slash (z ∷ zs) ≡ slash ∷ [] =
        ap from_slash (sym f) ∙ from_slash-reverse_onto (c ∷ cs) (slash ∷ []) name in
      rw (dir_name, e) (rw g refl)

  pub tokens-root : tokens [] (slash ∷ c ∷ cs) ≡ (c ∷ cs) ∷ []
  unfolding tokens
  tokens-root = tokens-NoSlash [] (c ∷ cs) name
