-- ===== src/Bitmap/View.antt =====
-- The bitmap of project3/code/my_vm.c as a function from indices to bits.
use cs.Prelude.{
  ℕ, ◌*◌, ◌/◌, ◌%◌, ◌<◌, ◌≡◌, refl, arith, ◌==◌, ltb, if◌then◌else◌, pos, update, ok, true, ap, ◌≤◌,
  false,
}
use cs.Bitmap.{
  Bitmap, set_mask, free_mask, set_bit_at_index, free_bit_at_index, get_bit_at_index, fault,
}
use cs.Bitmap.Bits.{
  bit_of, signed_one, bit_of-set_mask, bit_of-free_mask, char_bit_lem, set_mask-lt, free_mask-lt,
}

-- The bit at an index.
abbrev pub bit : Bitmap → ℕ → ℕ
bit bm i = bit_of (bm.bytes (i / 8)) (i % 8)

abbrev pub IsBytes : Bitmap → Type 0
IsBytes bm = (j : ℕ) → bm.bytes j < 256

-- `bm'` is `bm` with `v` at the index `i`.
pub record Marks (v : ℕ) (bm : Bitmap) (i : ℕ) (bm' : Bitmap) : Type 0 where
  pub bits : (j : ℕ) → bit bm' j ≡ (if i == j then v else bit bm j)
  pub whole : IsBytes bm'
  pub same_size : bm'.size ≡ bm.size

module _ (bm : Bitmap) (i : ℕ) where
  abbrev written : (ℕ → ℕ → ℕ) → Bitmap
  written mask = record bm { bytes = update bm.bytes (i / 8) (mask (bm.bytes (i / 8)) (i % 8)) }

  written-IsBytes :
      (mask : ℕ → ℕ → ℕ) → ((b k : ℕ) → mask b k < 256) → IsBytes bm → IsBytes (written mask)
  written-IsBytes mask small w j = ground (arith, small (bm.bytes (i / 8)) (i % 8), w j)

  -- A write of one byte, by what the mask does to its bits.
  bit-written :
      (v : ℕ) (mask : ℕ → ℕ → ℕ)
      → ((b : ℕ)
          → b < 256
          → (o k : ℕ) → o < 8
          → k < 8
          → bit_of (mask b o) k ≡ (if o == k then v else bit_of b k))
      → IsBytes bm
      → (j : ℕ) → bit (written mask) j ≡ (if i == j then v else bit bm j)
  bit-written v mask law w j =
      let l = law (bm.bytes (i / 8)) (w (i / 8)) (i % 8) (j % 8) (omega arith) (omega arith) in
      ground (arith, l)

  pub in_bounds : i < 8 * bm.size → ltb (i / 8) bm.size ≡ true
  in_bounds h = ground arith

  -- In an array of bytes, setting a bit at an index inside of it ends well, and changes that bit,
  -- which is then 1, and no other, nor the size.
  pub set_bit-Marks :
      IsBytes bm
      → i < 8 * bm.size
      → (bm' : Bitmap) × (set_bit_at_index bm i ≡ ok bm') × Marks 1 bm i bm'
  unfolding set_bit_at_index
  set_bit-Marks w h = (
    written set_mask,
    rw (in_bounds h),
    record {
      bits = bit-written 1 set_mask bit_of-set_mask w;
      whole = written-IsBytes set_mask set_mask-lt w;
      same_size = refl;
    },
  )

  -- In an array of bytes, freeing a bit at an index inside of it ends well, and changes that bit,
  -- which is then 0, and no other, nor the size.
  pub free_bit-Marks :
      IsBytes bm
      → i < 8 * bm.size
      → (bm' : Bitmap) × (free_bit_at_index bm i ≡ ok bm') × Marks 0 bm i bm'
  unfolding free_bit_at_index
  free_bit-Marks w h = (
    written free_mask,
    rw (in_bounds h),
    record {
      bits = bit-written 0 free_mask bit_of-free_mask w;
      whole = written-IsBytes free_mask free_mask-lt w;
      same_size = refl;
    },
  )

  pub get_bit_lem :
      IsBytes bm
      → i < 8 * bm.size
      → get_bit_at_index bm i ≡ ok (if bit bm i == 0 then pos 0 else signed_one (bm.bytes (i / 8)))
  unfolding get_bit_at_index
  get_bit_lem w h =
      rw (in_bounds h) (ap ok (char_bit_lem (bm.bytes (i / 8)) (w (i / 8)) (i % 8) (omega arith)))

  -- Outside of the array each of the three is a fault.
  pub out_of_bounds :
      8 * bm.size ≤ i
      → (set_bit_at_index bm i ≡ fault)
        × (free_bit_at_index bm i ≡ fault)
        × (get_bit_at_index bm i ≡ fault)
  unfolding set_bit_at_index free_bit_at_index get_bit_at_index
  out_of_bounds h = let e : ltb (i / 8) bm.size ≡ false = ground arith in (rw e, rw e, rw e)
