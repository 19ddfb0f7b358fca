-- ===== src/Vm/Pages/Single.antt =====
-- The searches for one page: `get_next_avail(1)` and `get_next_avail_p`.
use cs.Prelude.{
  ℕ, zero, suc, ◌+◌, ◌*◌, ◌≤◌, ◌<◌, ◌≡◌, refl, ◌∙◌, inl, inr, true, arith, Outcome, ok, exits,
  ◌>>=◌,
}
use native.Mathlib.Decide.{dec_lt}
use cs.Bitmap.{Bitmap}
use cs.Bitmap.View.{get_bit_lem, bit, IsBytes, set_bit-Marks}
use cs.Vm.State.{pgsize, Vm, total_virtual_pages, total_physical_pages}
use cs.Vm.Pages.{run_is_good, claim_run, first_run, get_next_avail, first_frame, get_next_avail_p}
use cs.Vm.Pages.Runs.{bit-cases, reading-cases, Filled, claim_run-Filled, run_is_good_of_passes}
use cs.Vm.Pages.FirstFit.{first_run_used, first_run_free}

-- A search over the pages from `i` to `e` for one page: the first free page is taken, and only
-- if all are in use the program exits.
pub data Search {A : Type 0} (bm : Bitmap) (i e : ℕ) (result : ℕ → Bitmap → A) (r : Outcome A)
    : Type 0 where
  full : ((j : ℕ) → i ≤ j → j < e → bit bm j ≡ 1) → r ≡ exits 1 → Search bm i e result r
  found :
      (p : ℕ) (bm' : Bitmap)
      → i ≤ p
      → p < e
      → bit bm p ≡ 0
      → ((j : ℕ) → i ≤ j → j < p → bit bm j ≡ 1)
      → Filled bm p 1 bm'
      → r ≡ ok (result p bm')
      → Search bm i e result r

abbrev with_bitmap : ℕ → Bitmap → ℕ × Bitmap
with_bitmap p bm = (p, bm)

Search-bind :
    {A : Type 0} (bm : Bitmap) (i e i' : ℕ) (result : ℕ → Bitmap → A) {r : Outcome (ℕ × Bitmap)}
    → Search bm i e with_bitmap r
    → i' ≡ i
    → Search bm i' e result (r >>= λ x. ok (result x.0 x.1))
Search-bind bm i e i' result (full all x) h = full (λ j lo hi. all j (omega arith) hi) (rw x)
Search-bind bm i e i' result (found p bm' lo hi free below filled x) h =
    found p bm' (omega arith) hi free (λ j lo hi. below j (omega arith) hi) filled (rw x)

module _ (bm : Bitmap) (w : IsBytes bm) where
  used_below :
      (i p : ℕ)
      → bit bm i ≡ 1
      → ((j : ℕ) → i + 1 ≤ j → j < p → bit bm j ≡ 1)
      → (j : ℕ) → i ≤ j
      → j < p
      → bit bm j ≡ 1
  used_below i p used rest j lo hi = elim (dec_lt i j) [
    | yes more ↦ rest j (omega arith) hi
    | no same ↦ (let e : j ≡ i = omega arith in rw e used)
  ]

  Search-later :
      (i e : ℕ) {r r' : Outcome (ℕ × Bitmap)}
      → bit bm i ≡ 1
      → r ≡ r'
      → Search bm (i + 1) e with_bitmap r'
      → Search bm i e with_bitmap r
  Search-later i e used q (full all x) = full (used_below i e used all) (q ∙ x)
  Search-later i e used q (found p bm' lo hi free below filled x) =
      found p bm' (omega arith) hi free (used_below i p used below) filled (q ∙ x)

  first_run-Search :
      (rounds i : ℕ)
      → i + rounds ≤ 8 * bm.size
      → Search bm i (i + rounds) with_bitmap (first_run rounds bm i 1)
  unfolding first_run
  first_run-Search zero i h = full (λ j lo hi. absurd (omega arith)) refl
  first_run-Search (suc rounds) i h = elim (bit-cases bm i) [
    | inr used ↦
        (Search-later i (i + suc rounds) used (first_run_used bm w rounds i 1 (omega arith) used) (
          let e : i + suc rounds ≡ i + 1 + rounds = omega arith in
          rw e (first_run-Search rounds (i + 1) (omega arith))))
    | inl free ↦
        (let good : run_is_good bm i 1 ≡ ok true =
            run_is_good_of_passes bm w i 1 (omega arith)
              (λ k hk. let e : i + k ≡ i = omega arith in rw e (inl free)) in
          let (bm', done, filled) = claim_run-Filled bm i 1 w (omega arith) in
          found i bm' (omega arith) (omega arith) free (λ j lo hi. absurd (omega arith)) filled
            (first_run_free bm w rounds i 1 (omega arith) free ∙ rw (good, done)))
  ]

  single_good : (i : ℕ) → i < 8 * bm.size → bit bm i ≡ 0 → run_is_good bm i 1 ≡ ok true
  single_good i h free =
      run_is_good_of_passes bm w i 1 (omega arith)
        (λ k hk. let e : i + k ≡ i = omega arith in rw e (inl free))

  -- The two searches are one.
  first_frame-first_run :
      (rounds i : ℕ) → i + rounds ≤ 8 * bm.size → first_frame rounds bm i ≡ first_run rounds bm i 1
  unfolding first_frame first_run claim_run
  first_frame-first_run zero i h = refl
  first_frame-first_run (suc rounds) i h =
      let (bm', done, m) = set_bit-Marks bm i w (omega arith) in
      elim (bit-cases bm i) [
        | inr used ↦
            (rw (get_bit_lem bm i w (omega arith)) (
              ground
                (arith, reading-cases bm i, first_frame-first_run rounds (i + 1) (omega arith))))
        | inl free ↦
            rw (get_bit_lem bm i w (omega arith), free)
              (rw (single_good i (omega arith) free, done))
      ]

-- On a whole bitmap `get_next_avail(1)` returns the first free virtual page, with only that page
-- put in use, or exits where every page is in use.
pub get_next_avail_single :
    (vm : Vm)
    → IsBytes vm.virtual_pages
    → total_virtual_pages ≤ 8 * vm.virtual_pages.size
    → Search vm.virtual_pages 0 total_virtual_pages
        (λ p bm. (p, record vm { virtual_pages = bm }))
        (get_next_avail vm 1)
unfolding get_next_avail
get_next_avail_single vm w h =
    Search-bind vm.virtual_pages 0 total_virtual_pages 0
      (λ p bm. (p, record vm { virtual_pages = bm }))
      (first_run-Search vm.virtual_pages w total_virtual_pages 0 (omega arith)) refl

-- On a whole bitmap `get_next_avail_p` returns the address of the first free frame, with only that
-- frame put in use, or exits where every frame is in use.
pub get_next_avail_p-Search :
    (vm : Vm)
    → IsBytes vm.physical_pages
    → total_physical_pages ≤ 8 * vm.physical_pages.size
    → Search vm.physical_pages 0 total_physical_pages
        (λ p bm. (p * pgsize + vm.physical_memory, record vm { physical_pages = bm }))
        (get_next_avail_p vm)
unfolding get_next_avail_p
get_next_avail_p-Search vm w h =
    rw (first_frame-first_run vm.physical_pages w total_physical_pages 0 (omega arith)) (
      Search-bind vm.physical_pages 0 total_physical_pages 0
        (λ p bm. (p * pgsize + vm.physical_memory, record vm { physical_pages = bm }))
        (first_run-Search vm.physical_pages w total_physical_pages 0 (omega arith)) refl)
