-- ===== src/Vm/Pages/Runs.antt =====
-- The two inner loops of `get_next_avail`: what passes as a free run, and what claiming it sets.
use native.Mathlib.Decide.{dec_lt}
use cs.Prelude.{
  ℕ, zero, suc, ◌+◌, ◌*◌, ◌/◌, ◌%◌, ◌≤◌, ◌<◌, ◌≡◌, refl, ◌∙◌, ◌⊎◌, true, false, ◌&&◌, arith, ltb,
  leb, ◌==◌, if◌then◌else◌, ℤ, pos, is_one, ok, fault,
}
use cs.Bitmap.{Bitmap}
use cs.Bitmap.Bits.{bit_of-lt, signed_one}
use cs.Bitmap.View.{bit, IsBytes, Marks, set_bit-Marks, get_bit_lem, out_of_bounds}
use cs.Vm.Pages.{run_is_good, claim_run}

-- How a page reads through a signed `char`.
abbrev pub reading : Bitmap → ℕ → ℤ
reading bm i = if bit bm i == 0 then pos 0 else signed_one (bm.bytes (i / 8))

-- `get_bit_at_index(virtualPageTracker, i) == 1` fails: the page is free, or the last page of
-- its byte is in use.
abbrev pub PassesAsFree : Bitmap → ℕ → Type 0
PassesAsFree bm i = (bit bm i ≡ 0) ⊎ (128 ≤ bm.bytes (i / 8))

pub bit-cases : (bm : Bitmap) (i : ℕ) → (bit bm i ≡ 0) ⊎ (bit bm i ≡ 1)
bit-cases bm i = ground (arith, bit_of-lt (bm.bytes (i / 8)) (i % 8))

pub reading-cases :
    (bm : Bitmap) (i : ℕ)
    → (is_one (reading bm i) ≡ true) × (bit bm i ≡ 1) × (bm.bytes (i / 8) < 128)
      ⊎ (is_one (reading bm i) ≡ false) × PassesAsFree bm i
reading-cases bm i = ground (arith, bit-cases bm i)

-- `bm'` is `bm` with the `n` pages from `i` on in use.
pub record Filled (bm : Bitmap) (i n : ℕ) (bm' : Bitmap) : Type 0 where
  pub bits : (j : ℕ) → bit bm' j ≡ (if leb i j && ltb j (i + n) then 1 else bit bm j)
  pub whole : IsBytes bm'
  pub same_size : bm'.size ≡ bm.size

Filled-step :
    {bm bm' bm'' : Bitmap} (i n : ℕ)
    → Marks 1 bm i bm'
    → Filled bm' (i + 1) n bm''
    → Filled bm i (suc n) bm''
Filled-step i n m f = record {
  bits = λ j. ground (arith, m.bits j, f.bits j);
  whole = f.whole;
  same_size = f.same_size ∙ m.same_size;
}

pub claim_run-Filled :
    (bm : Bitmap) (i n : ℕ)
    → IsBytes bm
    → i + n ≤ 8 * bm.size
    → (bm' : Bitmap) × (claim_run bm i n ≡ ok bm') × Filled bm i n bm'
unfolding claim_run
claim_run-Filled bm i zero w h =
    (bm, refl, record { bits = λ j. ground arith; whole = w; same_size = refl })
claim_run-Filled bm i (suc n) w h =
    let (bm', e, m) = set_bit-Marks bm i w (omega arith) in
    let (bm'', e', f) = claim_run-Filled bm' (i + 1) n m.whole (omega (arith, m.same_size)) in
    (bm'', rw e e', Filled-step i n m f)

module _ (bm : Bitmap) (w : IsBytes bm) where
  run_is_good_step :
      (i n : ℕ)
      → i < 8 * bm.size
      → run_is_good bm i (suc n)
        ≡ (if is_one (reading bm i) then ok false else run_is_good bm (i + 1) n)
  unfolding run_is_good
  run_is_good_step i n h = rw (get_bit_lem bm i w h)

  run_is_good_outside : (i n : ℕ) → 8 * bm.size ≤ i → run_is_good bm i (suc n) ≡ fault
  unfolding run_is_good
  run_is_good_outside i n h = rw ((out_of_bounds bm i h).2)

  run_is_good_first :
      (i n : ℕ)
      → run_is_good bm i (suc n) ≡ ok true
      → (i < 8 * bm.size) × PassesAsFree bm i × (run_is_good bm (i + 1) n ≡ ok true)
  run_is_good_first i n e = elim (dec_lt i (8 * bm.size)) [
    | no out ↦ cc (run_is_good_outside i n (omega arith))
    | yes fits ↦ (
      fits,
      ground (arith, run_is_good_step i n fits, reading-cases bm i),
      ground (arith, run_is_good_step i n fits),
    )
  ]

  -- What passes lies inside the bitmap, and each of its pages reads as something else than 1.
  pub run_is_good-true :
      (i n : ℕ)
      → run_is_good bm i n ≡ ok true
      → (k : ℕ) → k < n
      → (i + k < 8 * bm.size) × PassesAsFree bm (i + k)
  run_is_good-true i zero e k h = absurd (omega arith)
  run_is_good-true i (suc n) e zero h =
      let f = run_is_good_first i n e in
      (omega (arith, f.0), let z : i + 0 ≡ i = omega arith in rw z f.1)
  run_is_good-true i (suc n) e (suc k) h =
      let z : i + suc k ≡ i + 1 + k = omega arith in
      rw z (run_is_good-true (i + 1) n (run_is_good_first i n e).2 k (omega arith))

  -- A run inside of the bitmap whose pages all pass is taken for free.
  pub run_is_good_of_passes :
      (i n : ℕ)
      → i + n ≤ 8 * bm.size
      → ((k : ℕ) → k < n → PassesAsFree bm (i + k))
      → run_is_good bm i n ≡ ok true
  unfolding run_is_good
  run_is_good_of_passes i zero h p = refl
  run_is_good_of_passes i (suc n) h p =
      let z : i + 0 ≡ i = omega arith in
      let first : PassesAsFree bm i = rw z at (p 0 (omega arith)) in
      let rest =
        run_is_good_of_passes (i + 1) n (omega arith)
          (λ k hk. let z : i + 1 + k ≡ i + suc k = omega arith in rw z (p (suc k) (omega arith))) in
      ground (arith, run_is_good_step i n (omega arith), reading-cases bm i)
