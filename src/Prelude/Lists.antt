-- ===== src/Prelude/Lists.antt =====
-- Lists over native numbers.
use Prim.Native.Nat.{ℕ, suc}
use mathlib.Core.List.{List, [], ◌∷◌}

abbrev pub length {ℓ} : {A : Type ℓ} → List A → ℕ
length [] = 0
length (_ ∷ xs) = suc (length xs)
