-- ===== src/Bitmap.antt =====
-- The bitmaps: `set_bit_at_index`, `free_bit_at_index` and `get_bit_at_index` of
-- project3/code/my_vm.c (the first and the last also of project1/bitops.c), over an array of
-- `char`, which is signed on the target; the bitmap operations of project4/rufs.h, over
-- `unsigned char`; and `get_top_bits` of project1/bitops.c.
pub mod Bits
pub mod View
pub mod Unsigned
mod Tests
use cs.Prelude.{
  ℕ, ◌+◌, ◌-◌, ◌*◌, ◌/◌, ◌%◌, ◌^◌, bit_and, bit_or, ◌==◌, ltb, if◌then◌else◌, update, ℤ,
  signed_char, shift_right, rem_two, Outcome, ok, fault, ◌&&◌, leb,
}

-- An array of `size` bytes; a byte is its bit pattern, below 256.
pub record Bitmap : Type 0 where
  pub bytes : ℕ → ℕ
  pub size : ℕ

-- `b | 1 << k` and `b & ~(1 << k)`, stored back in a byte.
unfoldable pub set_mask : ℕ → ℕ → ℕ
set_mask b k = bit_or b (2 ^ k) % 256

unfoldable pub free_mask : ℕ → ℕ → ℕ
free_mask b k = bit_and b (255 - 2 ^ k) % 256

unfoldable pub char_bit : ℕ → ℕ → ℤ
char_bit b k = rem_two (shift_right (signed_char b) k)

-- An access outside of the array is a fault.
unfoldable pub set_bit_at_index : Bitmap → ℕ → Outcome Bitmap
set_bit_at_index bm i =
    if ltb (i / 8) bm.size
    then ok (record bm { bytes = update bm.bytes (i / 8) (set_mask (bm.bytes (i / 8)) (i % 8)) })
    else fault

unfoldable pub free_bit_at_index : Bitmap → ℕ → Outcome Bitmap
free_bit_at_index bm i =
    if ltb (i / 8) bm.size
    then ok (record bm { bytes = update bm.bytes (i / 8) (free_mask (bm.bytes (i / 8)) (i % 8)) })
    else fault

unfoldable pub get_bit_at_index : Bitmap → ℕ → Outcome ℤ
get_bit_at_index bm i =
    if ltb (i / 8) bm.size then ok (char_bit (bm.bytes (i / 8)) (i % 8)) else fault

-- The operations of project4/rufs.h: `i & 7` is `i % 8`, and a byte is an `unsigned char`.
unfoldable pub set_bitmap : Bitmap → ℕ → Outcome Bitmap
set_bitmap b i =
    if ltb (i / 8) b.size
    then ok (record b { bytes = update b.bytes (i / 8) (set_mask (b.bytes (i / 8)) (i % 8)) })
    else fault

unfoldable pub unset_bitmap : Bitmap → ℕ → Outcome Bitmap
unset_bitmap b i =
    if ltb (i / 8) b.size
    then ok (record b { bytes = update b.bytes (i / 8) (free_mask (b.bytes (i / 8)) (i % 8)) })
    else fault

unfoldable pub unsigned_bit : ℕ → ℕ → ℕ
unsigned_bit b k = if bit_and b (2 ^ k) == 0 then 0 else 1

unfoldable pub get_bitmap : Bitmap → ℕ → Outcome ℕ
get_bitmap b i = if ltb (i / 8) b.size then ok (unsigned_bit (b.bytes (i / 8)) (i % 8)) else fault

-- `value >> 32 - num_bits`, for `1 ≤ num_bits ≤ 32`: a shift by 32 is undefined.
unfoldable pub get_top_bits : ℕ → ℕ → Outcome ℕ
get_top_bits value num_bits =
    if ltb 0 num_bits && leb num_bits 32 then ok (value / 2 ^ (32 - num_bits)) else fault
