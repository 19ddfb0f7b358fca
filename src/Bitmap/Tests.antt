-- ===== src/Bitmap/Tests.antt =====
-- The bitmap operations of project1, project3 and project4 at concrete inputs.
use cs.Prelude.{
  ℕ, ◌+◌, ◌-◌, ◌*◌, ◌^◌, ◌≤◌, ◌<◌, ◌≡◌, refl, ◌⊎◌, arith, ◌==◌, if◌then◌else◌, pos, negsuc, ok,
}
use cs.Bitmap.{Bitmap, get_bit_at_index, get_bitmap, get_top_bits}
use cs.Bitmap.View.{IsBytes}
use cs.Bitmap.Unsigned.{get_bit-get_bitmap, get_top_bits_lem}

-- The bits 0 and 7 are set.
abbrev four_bytes : Bitmap
four_bytes = record { bytes = λ i. if i == 0 then 129 else 0; size = 4 }

four_bytes-IsBytes : IsBytes four_bytes
four_bytes-IsBytes j = ground arith

get_bit-get_bitmap_example :
    (get_bitmap four_bytes 7 ≡ ok 0) × (get_bit_at_index four_bytes 7 ≡ ok (pos 0))
    ⊎ (get_bitmap four_bytes 7 ≡ ok 1) × (get_bit_at_index four_bytes 7 ≡ ok (negsuc 0))
get_bit-get_bitmap_example = get_bit-get_bitmap four_bytes 7 four_bytes-IsBytes (omega arith)

get_top_bits_lem_example :
    (top : ℕ) × (get_top_bits 4026544704 4 ≡ ok top)
    × (top < 2 ^ 4)
    × (top * 2 ^ (32 - 4) ≤ 4026544704)
    × (4026544704 < (top + 1) * 2 ^ (32 - 4))
get_top_bits_lem_example = get_top_bits_lem 4026544704 4 (omega arith) (omega arith) (omega arith)

top_bits : get_top_bits 4026544704 4 ≡ ok 15
unfolding get_top_bits
top_bits = refl
