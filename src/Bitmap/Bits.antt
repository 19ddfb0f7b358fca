-- ===== src/Bitmap/Bits.antt =====
-- Laws of single bits of a byte, for the masks of the bitmap operations.
use cs.Prelude.{
  ℕ, ◌+◌, ◌*◌, ◌/◌, ◌%◌, ◌^◌, ◌<◌, ◌≡◌, refl, Bool, true, arith, ◌==◌, ltb, ==_iff, if◌then◌else◌,
  ℤ, pos, negsuc, holds_below, holds_below_at, same_int, same_int_sound,
}
use cs.Bitmap.{set_mask, free_mask, char_bit, unsigned_bit}

-- The bit `k` of a byte, as a number.
unfoldable pub bit_of : ℕ → ℕ → ℕ
bit_of b k = b / 2 ^ k % 2

abbrev TableHolds : (ℕ → ℕ → ℕ → Bool) → Type 0
TableHolds p = holds_below 16384 (λ x. p (x / 64) (x / 8 % 8) (x % 8)) ≡ true

table_at :
    (p : ℕ → ℕ → ℕ → Bool) (b o k : ℕ) → TableHolds p → b < 256 → o < 8 → k < 8 → p b o k ≡ true
table_at p b o k t hb ho hk =
    let x : ℕ = b * 64 + o * 8 + k in
    let eb : x / 64 ≡ b = omega arith in
    let eo : x / 8 % 8 ≡ o = omega arith in
    let ek : x % 8 ≡ k = omega arith in
    rw (eb, eo, ek) at
      (holds_below_at 16384 (λ x. p (x / 64) (x / 8 % 8) (x % 8)) x t (omega arith))

abbrev set_mask_test : ℕ → ℕ → ℕ → Bool
set_mask_test b o k = bit_of (set_mask b o) k == (if o == k then 1 else bit_of b k)

set_mask_table : TableHolds set_mask_test
unfolding holds_below set_mask bit_of
set_mask_table = refl

abbrev free_mask_test : ℕ → ℕ → ℕ → Bool
free_mask_test b o k = bit_of (free_mask b o) k == (if o == k then 0 else bit_of b k)

free_mask_table : TableHolds free_mask_test
unfolding holds_below free_mask bit_of
free_mask_table = refl

-- How a set bit of the byte `b` reads when `char` is signed.
abbrev pub signed_one : ℕ → ℤ
signed_one b = if ltb b 128 then pos 1 else negsuc 0

abbrev char_bit_test : ℕ → ℕ → ℕ → Bool
char_bit_test b _ k = same_int (char_bit b k) (if bit_of b k == 0 then pos 0 else signed_one b)

char_bit_table : TableHolds char_bit_test
unfolding holds_below char_bit bit_of
char_bit_table = refl

module _ (b : ℕ) (hb : b < 256) where
  pub bit_of-set_mask :
      (o k : ℕ) → o < 8 → k < 8 → bit_of (set_mask b o) k ≡ (if o == k then 1 else bit_of b k)
  bit_of-set_mask o k ho hk = (==_iff _ _).0 (table_at set_mask_test b o k set_mask_table hb ho hk)

  pub bit_of-free_mask :
      (o k : ℕ) → o < 8 → k < 8 → bit_of (free_mask b o) k ≡ (if o == k then 0 else bit_of b k)
  bit_of-free_mask o k ho hk =
      (==_iff _ _).0 (table_at free_mask_test b o k free_mask_table hb ho hk)

  pub char_bit_lem :
      (k : ℕ) → k < 8 → char_bit b k ≡ (if bit_of b k == 0 then pos 0 else signed_one b)
  char_bit_lem k hk =
      same_int_sound _ _ (table_at char_bit_test b 0 k char_bit_table hb (omega arith) hk)

pub bit_of-lt : (b k : ℕ) → bit_of b k < 2
unfolding bit_of
bit_of-lt b k = omega arith

pub set_mask-lt : (b k : ℕ) → set_mask b k < 256
unfolding set_mask
set_mask-lt b k = omega arith

pub free_mask-lt : (b k : ℕ) → free_mask b k < 256
unfolding free_mask
free_mask-lt b k = omega arith

abbrev unsigned_test : ℕ → ℕ → ℕ → Bool
unsigned_test b _ k = unsigned_bit b k == bit_of b k

unsigned_table : TableHolds unsigned_test
unfolding holds_below unsigned_bit bit_of
unsigned_table = refl

pub unsigned_bit_lem : (b k : ℕ) → b < 256 → k < 8 → unsigned_bit b k ≡ bit_of b k
unsigned_bit_lem b k hb hk =
    (==_iff _ _).0 (table_at unsigned_test b 0 k unsigned_table hb (omega arith) hk)
