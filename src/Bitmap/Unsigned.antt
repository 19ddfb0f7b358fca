-- ===== src/Bitmap/Unsigned.antt =====
-- The bitmap operations of project4/rufs.h, beside those of project3/code/my_vm.c.
use Prim.Native.Nat.add
use native.Mathlib.Nat.{div-add-mod', mod-lt, one-le-pow, pow-succ'}
use cs.Prelude.{
  ℕ, zero, suc, ◌+◌, ◌-◌, ◌*◌, ◌/◌, ◌%◌, ◌^◌, ◌≤◌, ◌<◌, ◌≡◌, refl, ap, ◌∙◌, ◌⊎◌, arith, ltb,
  if◌then◌else◌, pos, negsuc, ok,
}
use cs.Bitmap.{
  Bitmap, set_bit_at_index, free_bit_at_index, get_bit_at_index, set_bitmap, unset_bitmap,
  get_bitmap, get_top_bits,
}
use cs.Bitmap.Bits.{unsigned_bit_lem, bit_of-lt}
use cs.Bitmap.View.{bit, IsBytes, in_bounds, get_bit_lem}

module _ (bm : Bitmap) (i : ℕ) where
  pub get_bitmap_lem : IsBytes bm → i < 8 * bm.size → get_bitmap bm i ≡ ok (bit bm i)
  unfolding get_bitmap
  get_bitmap_lem w h =
      rw (in_bounds bm i h)
        (ap ok (unsigned_bit_lem (bm.bytes (i / 8)) (i % 8) (w (i / 8)) (omega arith)))

  -- The two families write the same byte at every index, faults included.
  pub writes_agree :
      (set_bitmap bm i ≡ set_bit_at_index bm i) × (unset_bitmap bm i ≡ free_bit_at_index bm i)
  unfolding set_bitmap set_bit_at_index unset_bitmap free_bit_at_index
  writes_agree = (refl, refl)

  -- Inside an array of bytes both `get_bitmap` and `get_bit_at_index` read a clear bit as 0. A set
  -- bit is 1 to the former, and to the latter 1 if bit 7 of its byte is clear, else -1.
  pub get_bit-get_bitmap :
      IsBytes bm
      → i < 8 * bm.size
      → (get_bitmap bm i ≡ ok 0) × (get_bit_at_index bm i ≡ ok (pos 0))
        ⊎ (get_bitmap bm i ≡ ok 1)
          × (get_bit_at_index bm i ≡ ok (if ltb (bm.bytes (i / 8)) 128 then pos 1 else negsuc 0))
  get_bit-get_bitmap w h =
      ground (arith, get_bitmap_lem w h, get_bit_lem bm i w h, bit_of-lt (bm.bytes (i / 8)) (i % 8))

two_pow_split : (n m : ℕ) → 2 ^ n * 2 ^ m ≡ 2 ^ (n + m)
two_pow_split zero m = rw (add.zero m) (omega arith)
two_pow_split (suc n) m = rw add.suc (
    omega (
      arith,
      two_pow_split n m,
      pow-succ' 2 n,
      pow-succ' 2 (n + m),
      ap (λ (t : ℕ). t * 2 ^ m) (pow-succ' 2 n),
    ))

-- For `1 ≤ n ≤ 32` the `n` top bits of a 32-bit value are a number below `2 ^ n`, the whole
-- part of the value divided by `2 ^ (32 - n)`.
pub get_top_bits_lem :
    (value n : ℕ)
    → value < 2 ^ 32
    → 1 ≤ n
    → n ≤ 32
    → (top : ℕ) × (get_top_bits value n ≡ ok top)
      × (top < 2 ^ n)
      × (top * 2 ^ (32 - n) ≤ value)
      × (value < (top + 1) * 2 ^ (32 - n))
unfolding get_top_bits
get_top_bits_lem value n hv lo hi =
    let d : ℕ = 2 ^ (32 - n) in
    let split : 2 ^ n * d ≡ 2 ^ 32 =
      two_pow_split n (32 - n) ∙ ap (λ (k : ℕ). 2 ^ k) {y = 32} (omega arith) in
    let positive : 1 ≤ d = one-le-pow (32 - n) 2 (omega arith) in
    let whole : value / d * d + value % d ≡ value = div-add-mod' value d in
    let rest : value % d < d = mod-lt value (omega arith) in
    (value / d, ground arith, grind arith, grind arith, grind arith)
