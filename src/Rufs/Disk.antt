-- ===== src/Rufs/Disk.antt =====
-- The emulated disk: project4/block.c. The file is a whole number of blocks long, since it is
-- made with 8192 of them and grows by whole blocks.
pub mod Blocks
use cs.Prelude.{
  ℕ, zero, suc, ◌+◌, ◌-◌, ◌*◌, ◌/◌, ◌%◌, ◌^◌, ◌≤◌, ◌<◌, bit_and, bit_or, ◌≡◌, refl, sym, ap, ◌∙◌,
  fun_ext, ◌≢◌, ◌↔◌, ◌⊎◌, inl, inr, Bool, true, false, ◌&&◌, ◌||◌, Option, none, some, List, [],
  ◌∷◌, ◌++◌, arith, ltb, leb, ◌==◌, if◌then◌else◌, ==_iff, ==_refl, ==_of_ne, Bool-cases, update, ℤ,
  pos, negsuc, signed_char, shift_right, rem_two, is_zero, is_one, Outcome, ok, exits, fault,
  out_of_fuel, ◌>>=◌, >>=-eq-ok,
}
use cs.Memory.{Mem}

abbrev pub block_size : ℕ
block_size = 4096

-- `DISK_SIZE` in blocks.
abbrev pub disk_blocks : ℕ
disk_blocks = 8192

-- `diskfile`: -1, a descriptor in use, or one that was closed.
pub data Descriptor : Type 0 where
  unopened opened closed : Descriptor

pub record Disk : Type 0 where
  pub bytes : Mem
  pub blocks : ℕ
  pub diskfile : Descriptor

abbrev pub is_open : Disk → Bool
is_open d = elim d.diskfile [ unopened ↦ false | opened ↦ true | closed ↦ false ]

-- `diskfile >= 0`.
abbrev pub is_set : Disk → Bool
is_set d = elim d.diskfile [ unopened ↦ false | opened ↦ true | closed ↦ true ]

-- `opens` is whether the system call succeeds. `EXIT_FAILURE` is 1.
unfoldable pub dev_init : Bool → Disk → Outcome Disk
dev_init opens d =
    if is_set d
    then ok d
    else if opens
    then ok (record {
      bytes = λ x. if ltb x (block_size * d.blocks) then d.bytes x else 0;
      blocks = disk_blocks;
      diskfile = opened;
    })
    else exits 1

unfoldable pub dev_open : Bool → Disk → ℤ × Disk
dev_open opens d =
    if is_set d
    then (pos 0, d)
    else if opens
    then (pos 0, record d { diskfile = opened })
    else (negsuc 0, d)

-- The number of the descriptor stays in `diskfile`.
unfoldable pub dev_close : Disk → Disk
dev_close d = if is_set d then record d { diskfile = closed } else d

-- A block past the end of the file reads as zeros, and so does every block where the read fails. The
-- buffer has the bytes of a block; behind them the function that stands for it is 0.
unfoldable pub bio_read : Disk → ℕ → ℤ × Mem
bio_read d b =
    if is_open d
    then if ltb b d.blocks
      then (pos block_size, λ i. if ltb i block_size then d.bytes (block_size * b + i) else 0)
      else (pos 0, λ _. 0)
    else (negsuc 0, λ _. 0)

-- The file grows to hold the block, with zeros up to it.
abbrev pub stored : Disk → ℕ → Mem → Mem
stored d b buf x =
    if leb (block_size * b) x && ltb x (block_size * b + block_size)
    then buf (x - block_size * b)
    else if leb (block_size * d.blocks) x
    then 0
    else d.bytes x

unfoldable pub bio_write : Disk → ℕ → Mem → ℤ × Disk
bio_write d b buf =
    if is_open d
    then (
      pos block_size,
      record d { bytes = stored d b buf; blocks = if ltb b d.blocks then d.blocks else b + 1 },
    )
    else (negsuc 0, d)
