-- ===== src/Prelude/Signed.antt =====
-- Signed integers as a value of C's `int` or `char`: `negsuc n` is -(n + 1).
use Prim.Native.Nat.{ℕ, suc, ◌-◌, ◌/◌, ◌%◌, ◌^◌}
use mathlib.Core.Bool.{Bool, true, false}
use mathlib.Core.Path.{◌≡◌}
use native.Mathlib.Omega.{arith}
use cs.Prelude.Tests.{ltb, ◌==◌, if◌then◌else◌}

pub data ℤ : Type 0 where
  pos : ℕ → ℤ
  negsuc : ℕ → ℤ

-- The value of a `signed char` with the bit pattern `b`.
abbrev pub signed_char : ℕ → ℤ
signed_char b = if ltb b 128 then pos b else negsuc (255 - b)

-- `>>` on a signed value: the arithmetic shift.
abbrev pub shift_right : ℤ → ℕ → ℤ
shift_right (pos n) k = pos (n / 2 ^ k)
shift_right (negsuc n) k = negsuc (n / 2 ^ k)

-- `% 2` takes the sign of the dividend.
abbrev pub rem_two : ℤ → ℤ
rem_two (pos n) = pos (n % 2)
rem_two (negsuc n) = if suc n % 2 == 0 then pos 0 else negsuc 0

abbrev pub is_zero : ℤ → Bool
is_zero (pos n) = n == 0
is_zero (negsuc n) = false

abbrev pub is_minus_one : ℤ → Bool
is_minus_one (pos n) = false
is_minus_one (negsuc n) = n == 0

abbrev pub is_one : ℤ → Bool
is_one (pos n) = n == 1
is_one (negsuc n) = false

abbrev pub same_int : ℤ → ℤ → Bool
same_int (pos a) (pos b) = a == b
same_int (negsuc a) (negsuc b) = a == b
same_int _ _ = false

pub same_int_sound : (a b : ℤ) → same_int a b ≡ true → a ≡ b
same_int_sound (pos a) (pos b) h = ground arith
same_int_sound (negsuc a) (negsuc b) h = ground arith
same_int_sound (pos a) (negsuc b) h = cc
same_int_sound (negsuc a) (pos b) h = cc
