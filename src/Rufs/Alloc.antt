-- ===== src/Rufs/Alloc.antt =====
-- The superblock of project4/rufs.h, and `get_avail_ino` and `get_avail_blkno` of
-- project4/rufs.c.
pub mod FirstClear
pub mod Takes
use cs.Prelude.{
  ℕ, zero, suc, ◌+◌, ◌-◌, ◌*◌, ◌/◌, ◌%◌, ◌^◌, ◌≤◌, ◌<◌, bit_and, bit_or, ◌≡◌, refl, sym, ap, ◌∙◌,
  fun_ext, ◌≢◌, ◌↔◌, ◌⊎◌, inl, inr, Bool, true, false, ◌&&◌, ◌||◌, Option, none, some, List, [],
  ◌∷◌, ◌++◌, arith, ltb, leb, ◌==◌, if◌then◌else◌, ==_iff, ==_refl, ==_of_ne, Bool-cases, update, ℤ,
  pos, negsuc, signed_char, shift_right, rem_two, is_zero, is_one, Outcome, ok, exits, fault,
  out_of_fuel, ◌>>=◌, >>=-eq-ok,
}
use cs.Memory.{Mem}
use cs.Bitmap.{Bitmap, get_bitmap, set_bitmap}
use cs.Rufs.Disk.{Disk, bio_read, bio_write}

abbrev pub max_inum : ℕ
max_inum = 1024

abbrev pub max_dnum : ℕ
max_dnum = 16384

-- `struct superblock`.
pub record Superblock : Type 0 where
  pub magic_num : ℕ
  pub max_inum : ℕ
  pub max_dnum : ℕ
  pub i_bitmap_blk : ℕ
  pub d_bitmap_blk : ℕ
  pub i_start_blk : ℕ
  pub d_start_blk : ℕ

-- The loop of both: the first clear bit of `n` from `i`, and the bitmap with the bit set.
unfoldable pub first_clear : ℕ → ℕ → Bitmap → Outcome (Option (ℕ × Bitmap))
first_clear zero i b = ok none
first_clear (suc n) i b = get_bitmap b i >>= λ v. elim (v == 0) [
  | true ↦ set_bitmap b i >>= λ b'. ok (some (i, b'))
  | false ↦ first_clear n (i + 1) b
]

-- The two copies between the block and the bitmap of `size` bytes in it.
abbrev pub bitmap_of : Mem → ℕ → Bitmap
bitmap_of block size = record { bytes = block; size = size }

abbrev pub with_bitmap : Mem → Bitmap → Mem
with_bitmap block b k = if ltb k b.size then b.bytes k else block k

-- The bit that was taken in the bitmap of the block `blk`, and the disk. Where no bit is clear the
-- variable for the result is read without a value.
unfoldable pub take_bit : Disk → ℕ → ℕ → ℕ → ℕ → Outcome (ℕ × Disk)
take_bit d blk size n i = do
  let block = (bio_read d blk).1
  r ← first_clear n i (bitmap_of block size)
  elim r [ none ↦ fault | some (k, b) ↦ ok (k, (bio_write d blk (with_bitmap block b)).1) ]

unfoldable pub get_avail_ino : Superblock → Disk → Outcome (ℕ × Disk)
get_avail_ino s d = take_bit d s.i_bitmap_blk (max_inum / 8) (max_inum - 1) 1

unfoldable pub get_avail_blkno : Superblock → Disk → Outcome (ℕ × Disk)
get_avail_blkno s d =
    take_bit d s.d_bitmap_blk (max_dnum / 8) max_dnum 0 >>= λ r. ok (r.0 + s.d_start_blk, r.1)
