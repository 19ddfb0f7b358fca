-- ===== src/Vm/Pages.antt =====
-- The page bitmaps: `get_next_avail` and `get_next_avail_p` of project3/code/my_vm.c.
pub mod Runs
pub mod FirstFit
pub mod Single
pub mod Overlap
use cs.Prelude.{
  is_minus_one, ℕ, zero, suc, ◌+◌, ◌-◌, ◌*◌, ◌/◌, ◌%◌, ◌^◌, ◌≤◌, ◌<◌, bit_and, bit_or, ◌≡◌, refl,
  sym, ap, ◌∙◌, fun_ext, ◌≢◌, ◌↔◌, ◌⊎◌, inl, inr, Bool, true, false, ◌&&◌, ◌||◌, Option, none, some,
  List, [], ◌∷◌, ◌++◌, arith, ltb, leb, ◌==◌, if◌then◌else◌, ==_iff, ==_refl, ==_of_ne, Bool-cases,
  update, ℤ, pos, negsuc, signed_char, shift_right, rem_two, is_zero, is_one, Outcome, ok, exits,
  fault, ◌>>=◌, >>=-eq-ok,
}
use cs.Bitmap.{Bitmap, set_bit_at_index, get_bit_at_index}
use cs.Vm.State.{Vm, pgsize, total_virtual_pages, total_physical_pages}

-- The first inner loop of `get_next_avail`, over `n` pages from `i`: false is `notGood`.
unfoldable pub run_is_good : Bitmap → ℕ → ℕ → Outcome Bool
run_is_good bm i zero = ok true
run_is_good bm i (suc n) =
    let rest = run_is_good bm (i + 1) n in
    get_bit_at_index bm i >>= λ b. if is_one b then ok false else rest

-- The second inner loop.
unfoldable pub claim_run : Bitmap → ℕ → ℕ → Outcome Bitmap
claim_run bm i zero = ok bm
claim_run bm i (suc n) = set_bit_at_index bm i >>= λ bm'. claim_run bm' (i + 1) n

abbrev pub claim_at : Bitmap → ℕ → ℕ → Outcome (ℕ × Bitmap)
claim_at bm i n = claim_run bm i n >>= λ bm'. ok (i, bm')

-- The outer loop, with `rounds` pages to look at from `i`. It ends in `exit(1)`.
unfoldable pub first_run : ℕ → Bitmap → ℕ → ℕ → Outcome (ℕ × Bitmap)
first_run zero bm i n = exits 1
first_run (suc rounds) bm i n =
    let rest = first_run rounds bm (i + 1) n in
    get_bit_at_index bm i >>= λ b.
    if is_zero b
    then run_is_good bm i n >>= (λ good. if good then claim_at bm i n else rest)
    else rest

unfoldable pub get_next_avail : Vm → ℕ → Outcome (ℕ × Vm)
get_next_avail vm num_pages = first_run total_virtual_pages vm.virtual_pages 0 num_pages >>= λ r.
    ok (r.0, record vm { virtual_pages = r.1 })

-- The loop of `get_next_avail_p`.
unfoldable pub first_frame : ℕ → Bitmap → ℕ → Outcome (ℕ × Bitmap)
first_frame zero bm i = exits 1
first_frame (suc rounds) bm i =
    let rest = first_frame rounds bm (i + 1) in
    get_bit_at_index bm i >>= λ b.
    if is_zero b then set_bit_at_index bm i >>= (λ bm'. ok (i, bm')) else rest

-- The address of the frame.
unfoldable pub get_next_avail_p : Vm → Outcome (ℕ × Vm)
get_next_avail_p vm = first_frame total_physical_pages vm.physical_pages 0 >>= λ r.
    ok (r.0 * pgsize + vm.physical_memory, record vm { physical_pages = r.1 })
