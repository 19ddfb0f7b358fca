-- ===== src/Prelude/Outcomes.antt =====
-- What a run of C code comes to: a value, a call of `exit`, undefined behaviour, or, for a loop
-- on fuel, no end within the fuel.
use Prim.Native.Nat.{ℕ}
use mathlib.Core.Path.{◌≡◌, refl, sym, subst, ◌∙◌}
use mathlib.Core.Logic.{◌⊎◌, inl, inr}
use mathlib.Core.Bool.{Bool, true, false}
use cs.Prelude.Tests.{if◌then◌else◌}

pub data Outcome {ℓ} (A : Type ℓ) : Type ℓ where
  ok : A → Outcome A
  exits : ℕ → Outcome A
  fault : Outcome A
  out_of_fuel : Outcome A

infixl 5 ◌>>=◌
-- What follows a value.
abbrev pub ◌>>=◌ {ℓ κ} : {A : Type ℓ} {B : Type κ} → Outcome A → (A → Outcome B) → Outcome B
ok a >>= f = f a
exits c >>= f = exits c
fault >>= f = fault
out_of_fuel >>= f = out_of_fuel

-- A run in two parts that ends well: the value of the first part, and the two runs.
pub >>=-eq-ok {ℓ κ} :
    {A : Type ℓ} {B : Type κ} {y : B} (first : Outcome A) (next : A → Outcome B)
    → (first >>= next) ≡ ok y
    → (x : A) × (first ≡ ok x) × (next x ≡ ok y)
>>=-eq-ok fault next e = cc
>>=-eq-ok out_of_fuel next e = cc
>>=-eq-ok (exits c) next e = cc
>>=-eq-ok (ok x) next e = (x, refl, e)

-- A branch on the value of a run that ends well.
pub branch-eq-ok {ℓ} :
    {A : Type ℓ} (g : Outcome Bool) (x y : Outcome A) {r : A}
    → (g >>= λ b. if b then x else y) ≡ ok r
    → (g ≡ ok true) × (x ≡ ok r) ⊎ (g ≡ ok false) × (y ≡ ok r)
branch-eq-ok (ok true) x y e = inl (refl, e)
branch-eq-ok (ok false) x y e = inr (refl, e)
branch-eq-ok (exits c) x y e = cc
branch-eq-ok fault x y e = cc
branch-eq-ok out_of_fuel x y e = cc

abbrev pub OnOk {ℓ κ} : {A : Type ℓ} → (A → Type κ) → Outcome A → Type κ
OnOk P (ok a) = P a
OnOk P (exits c) = Unit
OnOk P fault = Unit
OnOk P out_of_fuel = Unit

-- A run with two values has equal values.
pub ok-transport {ℓ κ} :
    {A : Type ℓ} (P : A → Type κ) {m : Outcome A} {a b : A} → m ≡ ok a → m ≡ ok b → P a → P b
ok-transport P p q h = subst (OnOk P) (sym p ∙ q) h

pub >>=_assoc {ℓ} :
    {A B C : Type ℓ} (m : Outcome A) (f : A → Outcome B) (g : B → Outcome C)
    → ((m >>= f) >>= g) ≡ (m >>= λ a. f a >>= g)
>>=_assoc (ok a) f g = refl
>>=_assoc (exits c) f g = refl
>>=_assoc fault f g = refl
>>=_assoc out_of_fuel f g = refl
