-- ===== src/Rufs/Alloc/Takes.antt =====
-- What `get_avail_ino` and `get_avail_blkno` leave on the disk.

use cs.Prelude.{
  Bool-cases, inl, inr, ltb, sym, ℕ, ◌+◌, ◌*◌, ◌/◌, ◌%◌, ◌≤◌, ◌<◌, ◌≡◌, refl, ap, ◌∙◌, ◌≢◌, some,
  arith, ◌==◌, if◌then◌else◌, ok,
}
use cs.Bitmap.{Bitmap}
use cs.Bitmap.Bits.{bit_of}
use cs.Rufs.Disk.{Disk, opened, bio_read, bio_write}
use mathlib.Core.Path.{subst}
use cs.Bitmap.View.{IsBytes}
use cs.Rufs.Disk.Blocks.{bio_read-behind, bio_read-bio_write, bio_read-bio_write_other}
use cs.Rufs.Alloc.{
  Superblock, first_clear, bitmap_of, with_bitmap, take_bit, get_avail_ino, get_avail_blkno,
}
use cs.Rufs.Alloc.FirstClear.{first_clear-Marks}

-- The bit `j` of the bitmap in the block `blk`.
abbrev pub disk_bit : Disk → ℕ → ℕ → ℕ
disk_bit d blk j = bit_of ((bio_read d blk).1 (j / 8)) (j % 8)

-- The disk holds the block `blk`, and bytes in it.
pub record HasBitmap (d : Disk) (blk : ℕ) : Type 0 where
  pub is_opened : d.diskfile ≡ opened
  pub whole : (i : ℕ) → (bio_read d blk).1 i < 256

-- `r` was the first clear bit of the bitmap of `size` bytes from the bit `low` on. On `d'` it is
-- set, and the other bits of the bitmap and the other blocks are those of `d`.
pub record Takes (d : Disk) (blk size low r : ℕ) (d' : Disk) : Type 0 where
  pub from_low : low ≤ r
  pub in_bitmap : r < 8 * size
  pub was_clear : disk_bit d blk r ≡ 0
  pub first : (j : ℕ) → low ≤ j → j < r → disk_bit d blk j ≡ 1
  pub bits : (j : ℕ) → j < 8 * size → disk_bit d' blk j ≡ (if r == j then 1 else disk_bit d blk j)
  pub others : (b i : ℕ) → b ≢ blk → i < 4096 → (bio_read d' b).1 i ≡ (bio_read d b).1 i
  pub still_open : d'.diskfile ≡ opened
  pub still_whole : (i : ℕ) → (bio_read d' blk).1 i < 256

take_bit_steps :
    (d : Disk) (blk size n low r : ℕ) (b : Bitmap)
    → first_clear n low (bitmap_of (bio_read d blk).1 size) ≡ ok (some (r, b))
    → take_bit d blk size n low ≡ ok (r, (bio_write d blk (with_bitmap (bio_read d blk).1 b)).1)
unfolding take_bit
take_bit_steps d blk size n low r b run = rw run refl

after_whole :
    (d : Disk) (blk : ℕ) (b : Bitmap)
    → HasBitmap d blk
    → IsBytes b
    → (i : ℕ) → (bio_read (bio_write d blk (with_bitmap (bio_read d blk).1 b)).1 blk).1 i < 256
after_whole d blk b h w i = elim (Bool-cases (ltb i 4096)) [
  | inl lt ↦
      subst (λ x. x < 256)
        (sym
          (bio_read-bio_write d blk (with_bitmap (bio_read d blk).1 b) i h.is_opened
            (ground arith)).0)
        (ground (arith, w i, h.whole i))
  | inr ge ↦
      subst (λ x. x < 256)
        (sym (
          bio_read-behind (bio_write d blk (with_bitmap (bio_read d blk).1 b)).1 blk i
            (ground arith)))
        (omega arith)
]

take_bit-Takes :
    (d : Disk) (blk size n low k : ℕ)
    → HasBitmap d blk
    → size ≤ 4096
    → low + n ≤ 8 * size
    → low ≤ k
    → k < low + n
    → disk_bit d blk k ≡ 0
    → (r : ℕ) × (d' : Disk) × (take_bit d blk size n low ≡ ok (r, d'))
      × (r ≤ k)
      × Takes d blk size low r d'
take_bit-Takes d blk size n low k h small fits lo hi clear =
    let block = (bio_read d blk).1 in
    let (r, b, run, from, upto, free, before, marks) =
      first_clear-Marks n low k (bitmap_of block size) h.whole fits lo hi clear in
    let d' = (bio_write d blk (with_bitmap block b)).1 in
    (
      r,
      d',
      take_bit_steps d blk size n low r b run,
      upto,
      record {
        from_low = from;
        in_bitmap = omega arith;
        was_clear = free;
        first = before;
        bits = λ j inside.
            ap (λ a. bit_of a (j % 8))
              (in_block d blk size b (j / 8) h marks.same_size small (omega arith))
            ∙ marks.bits j;
        others = λ b' i ne lt.
            bio_read-bio_write_other d blk b' (with_bitmap block b) i h.is_opened ne lt;
        still_open = (bio_read-bio_write d blk (with_bitmap block b) 0 h.is_opened (omega arith)).1;
        still_whole = after_whole d blk b h marks.whole;
      },
    )
  where
    in_block :
        (d : Disk) (blk size : ℕ) (b : Bitmap) (i : ℕ)
        → HasBitmap d blk
        → b.size ≡ size
        → size ≤ 4096
        → i < size
        → (bio_read (bio_write d blk (with_bitmap (bio_read d blk).1 b)).1 blk).1 i ≡ b.bytes i
    in_block d blk size b i h same small lt =
        (bio_read-bio_write d blk (with_bitmap (bio_read d blk).1 b) i h.is_opened (omega arith)).0
        ∙ ground arith

-- Where some inode from 1 to 1023 is free on the disk, the call gives the first such one and
-- marks it as used, and nothing else of the bitmap or of the other blocks changes.
pub get_avail_ino-Takes :
    (s : Superblock) (d : Disk) (k : ℕ)
    → HasBitmap d s.i_bitmap_blk
    → 1 ≤ k
    → k < 1024
    → disk_bit d s.i_bitmap_blk k ≡ 0
    → (r : ℕ) × (d' : Disk) × (get_avail_ino s d ≡ ok (r, d'))
      × (r ≤ k)
      × Takes d s.i_bitmap_blk 128 1 r d'
unfolding get_avail_ino
get_avail_ino-Takes s d k h lo hi clear =
    take_bit-Takes d s.i_bitmap_blk 128 1023 1 k h (omega arith) (omega arith) lo (omega arith)
      clear

-- Where some data block is free, the call gives the number on the disk of the first such one,
-- and marks it as used, and nothing else of the bitmap or of the other blocks changes.
pub get_avail_blkno-Takes :
    (s : Superblock) (d : Disk) (k : ℕ)
    → HasBitmap d s.d_bitmap_blk
    → k < 16384
    → disk_bit d s.d_bitmap_blk k ≡ 0
    → (r : ℕ) × (d' : Disk) × (get_avail_blkno s d ≡ ok (r + s.d_start_blk, d'))
      × (r ≤ k)
      × Takes d s.d_bitmap_blk 2048 0 r d'
unfolding get_avail_blkno
get_avail_blkno-Takes s d k h hi clear =
    let (r, d', run, upto, takes) =
      take_bit-Takes d s.d_bitmap_blk 2048 16384 0 k h (omega arith) (omega arith) (omega arith)
        (omega arith) clear in
    (r, d', rw run refl, upto, takes)
