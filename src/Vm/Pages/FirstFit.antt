-- ===== src/Vm/Pages/FirstFit.antt =====
-- Where the run of `get_next_avail` lies.

use cs.Prelude.{
  branch-eq-ok, ok-transport, ℕ, zero, suc, ◌+◌, ◌*◌, ◌≤◌, ◌<◌, ◌≡◌, refl, sym, ◌∙◌, inl, inr, true,
  arith, if◌then◌else◌, ok, ◌>>=◌, >>=-eq-ok,
}
use cs.Bitmap.{Bitmap}
use cs.Bitmap.View.{bit, IsBytes, get_bit_lem}
use cs.Vm.Pages.{run_is_good, claim_at, first_run, get_next_avail, Vm, total_virtual_pages}
use cs.Vm.Pages.Runs.{
  PassesAsFree, bit-cases, reading-cases, Filled, claim_run-Filled, run_is_good-true,
}

-- What `get_next_avail` returns for `n` pages in the bitmap `bm`.
pub record IsRun (bm : Bitmap) (n p : ℕ) (bm' : Bitmap) : Type 0 where
  pub fits : p + n ≤ 8 * bm.size
  pub start_free : bit bm p ≡ 0
  pub passes : (k : ℕ) → k < n → PassesAsFree bm (p + k)
  pub filled : Filled bm p n bm'

module _ (bm : Bitmap) (w : IsBytes bm) where
  module _ (rounds i n : ℕ) (h : i < 8 * bm.size) where
    pub first_run_used :
        bit bm i ≡ 1 → first_run (suc rounds) bm i n ≡ first_run rounds bm (i + 1) n
    unfolding first_run
    first_run_used e = rw (get_bit_lem bm i w h) (ground (arith, reading-cases bm i))

    pub first_run_free :
        bit bm i ≡ 0
        → first_run (suc rounds) bm i n ≡ (
            run_is_good bm i n >>= λ good.
            if good then claim_at bm i n else first_run rounds bm (i + 1) n)
    unfolding first_run
    first_run_free e = rw (get_bit_lem bm i w h, e)

  run_fits : (i n : ℕ) → i < 8 * bm.size → run_is_good bm i n ≡ ok true → i + n ≤ 8 * bm.size
  run_fits i zero h good = omega arith
  run_fits i (suc n) h good =
      omega (arith, (run_is_good-true bm w i (suc n) good n (omega arith)).0)

  pub claim-IsRun :
      (i n p : ℕ) (bm' : Bitmap)
      → i < 8 * bm.size
      → bit bm i ≡ 0
      → run_is_good bm i n ≡ ok true
      → claim_at bm i n ≡ ok (p, bm')
      → (p ≡ i) × IsRun bm n p bm'
  claim-IsRun i n p bm' h free good e =
      let (b, done, filled) = claim_run-Filled bm i n w (run_fits i n h good) in
      let value : claim_at bm i n ≡ ok (i, b) = rw done in
      let passes : (k : ℕ) → k < n → PassesAsFree bm (i + k) =
        λ k hk. (run_is_good-true bm w i n good k hk).1 in
      ok-transport (λ (r : ℕ × Bitmap). (r.0 ≡ i) × IsRun bm n r.0 r.1) value e
        (
          refl,
          record {
            fits = run_fits i n h good;
            start_free = free;
            passes = passes;
            filled = filled;
          },
        )

  pub first_run-IsRun :
      (rounds i n : ℕ) {p : ℕ} {bm' : Bitmap}
      → i + rounds ≤ 8 * bm.size
      → first_run rounds bm i n ≡ ok (p, bm')
      → (i ≤ p) × (p < i + rounds) × IsRun bm n p bm'
  unfolding first_run
  first_run-IsRun zero i n h e = cc
  first_run-IsRun (suc rounds) i n {p} {bm'} h e = elim (bit-cases bm i) [
    | inr used ↦
        let r =
          first_run-IsRun rounds (i + 1) n {p = p} {bm' = bm'} (omega arith)
            (sym (first_run_used rounds i n (omega arith) used) ∙ e) in
        (omega (arith, r.0), omega (arith, r.1), r.2)
    | inl free ↦
        elim (branch-eq-ok (run_is_good bm i n) _ _
          (sym (first_run_free rounds i n (omega arith) free) ∙ e)) [
            | inl (good, claimed) ↦
                let c = claim-IsRun i n p bm' (omega arith) free good claimed in
                (omega (arith, c.0), omega (arith, c.0), c.1)
            | inr (bad, later) ↦
                let r = first_run-IsRun rounds (i + 1) n {p = p} {bm' = bm'} (omega arith) later in
                (omega (arith, r.0), omega (arith, r.1), r.2)
          ]
  ]

-- On a whole bitmap, what `get_next_avail` returns for `num_pages` pages, where it does, starts at a free page, each page of it is
-- free or lies in a byte whose last page is in use, and afterwards its pages are in use and every
-- other page is as before. Nothing but the bitmap of virtual pages changes.
pub get_next_avail-IsRun :
    (vm : Vm) (num_pages : ℕ) {p : ℕ} {vm' : Vm}
    → IsBytes vm.virtual_pages
    → total_virtual_pages ≤ 8 * vm.virtual_pages.size
    → get_next_avail vm num_pages ≡ ok (p, vm')
    → (p < total_virtual_pages)
      × IsRun vm.virtual_pages num_pages p vm'.virtual_pages
      × (vm' ≡ record vm { virtual_pages = vm'.virtual_pages })
unfolding get_next_avail
get_next_avail-IsRun vm num_pages {p} {vm'} w h e =
    let s = >>=-eq-ok (first_run total_virtual_pages vm.virtual_pages 0 num_pages) _ e in
    let run =
      first_run-IsRun vm.virtual_pages w total_virtual_pages 0 num_pages (omega arith) s.1 in
    ok-transport
      (λ (r : ℕ × Vm).
        (r.0 < total_virtual_pages)
        × IsRun vm.virtual_pages num_pages r.0 r.1.virtual_pages
        × (r.1 ≡ record vm { virtual_pages = r.1.virtual_pages }))
      refl s.2 (omega (arith, run.1), run.2, refl)
