-- ===== src/Rufs/Alloc/FirstClear.antt =====
-- The bit that `get_avail_ino` and `get_avail_blkno` take.
use cs.Prelude.{
  ℕ, zero, suc, ◌+◌, ◌*◌, ◌/◌, ◌%◌, ◌≤◌, ◌<◌, ◌≡◌, refl, sym, ap, ◌∙◌, ◌≢◌, inl, inr, false, some,
  arith, ◌==◌, ==_iff, Bool-cases, ok,
}
use cs.Bitmap.{Bitmap, get_bitmap, set_bitmap}
use cs.Bitmap.Bits.{bit_of-lt}
use cs.Bitmap.View.{bit, IsBytes, Marks, set_bit-Marks}
use cs.Bitmap.Unsigned.{get_bitmap_lem, writes_agree}
use cs.Rufs.Alloc.{first_clear}

first_clear_hit :
    (n i : ℕ) (b b' : Bitmap)
    → get_bitmap b i ≡ ok 0
    → set_bitmap b i ≡ ok b'
    → first_clear (suc n) i b ≡ ok (some (i, b'))
unfolding first_clear
first_clear_hit n i b b' g w = rw (g, w) refl

first_clear_miss :
    (n i : ℕ) (b : Bitmap)
    → get_bitmap b i ≡ ok 1
    → first_clear (suc n) i b ≡ first_clear n (i + 1) b
unfolding first_clear
first_clear_miss n i b g = rw g refl

-- In a bitmap with a clear bit among the `n` from `i`, all of them in the array, the first clear
-- one is found, and it is the only bit that changes.
pub first_clear-Marks :
    (n i k : ℕ) (b : Bitmap)
    → IsBytes b
    → i + n ≤ 8 * b.size
    → i ≤ k
    → k < i + n
    → bit b k ≡ 0
    → (r : ℕ) × (b' : Bitmap) × (first_clear n i b ≡ ok (some (r, b')))
      × (i ≤ r)
      × (r ≤ k)
      × (bit b r ≡ 0)
      × ((j : ℕ) → i ≤ j → j < r → bit b j ≡ 1)
      × Marks 1 b r b'
first_clear-Marks zero i k b w fits lo hi clear = absurd (omega arith)
first_clear-Marks (suc n) i k b w fits lo hi clear = elim (Bool-cases (bit b i == 0)) [
  | inl z' ↦
      let z : bit b i ≡ 0 = (==_iff (bit b i) 0).0 z' in
      let (b', run, marks) = set_bit-Marks b i w (omega arith) in
      (
        i,
        b',
        first_clear_hit n i b b' (get_bitmap_lem b i w (omega arith) ∙ ap ok z)
            ((writes_agree b i).0 ∙ run),
        omega arith,
        lo,
        z,
        λ j l h. absurd (omega arith),
        marks,
      )
  | inr nz' ↦
      let one : bit b i ≡ 1 = ground (arith, bit_of-lt (b.bytes (i / 8)) (i % 8)) in
      let apart : k ≢ i = λ e. not_clear (bit b i) nz' (ap (bit b) (sym e) ∙ clear) in
      let (r, b', run, l, h, c, before, marks) =
        first_clear-Marks n (i + 1) k b w (omega arith) (omega arith) (omega arith) clear in
      (
        r,
        b',
        first_clear_miss n i b (get_bitmap_lem b i w (omega arith) ∙ ap ok one) ∙ run,
        omega arith,
        h,
        c,
        λ j lo' hi'. earlier b i r one before j lo' hi',
        marks,
      )
]
  where
    not_clear : (x : ℕ) → (x == 0) ≡ false → x ≢ 0
    not_clear x e z = ground arith

    earlier :
        (b : Bitmap) (i r : ℕ)
        → bit b i ≡ 1
        → ((j : ℕ) → i + 1 ≤ j → j < r → bit b j ≡ 1)
        → (j : ℕ) → i ≤ j
        → j < r
        → bit b j ≡ 1
    earlier b i r one before j lo hi = elim (Bool-cases (i == j)) [
      | inl same ↦ ap (bit b) (sym ((==_iff i j).0 same)) ∙ one
      | inr other ↦ before j (ground arith) hi
    ]
