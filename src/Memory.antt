-- ===== src/Memory.antt =====
-- The flat 32-bit memory of the process that project3/code/my_vm.c runs in: a byte at every
-- address, with the accesses that the code makes.
pub mod Words
pub mod Blocks
use cs.Prelude.{ℕ, ◌+◌, ◌-◌, ◌*◌, ◌/◌, ◌%◌, ◌&&◌, leb, ltb, if◌then◌else◌, update}

abbrev pub Mem : Type 0
Mem = ℕ → ℕ

-- A little-endian 32-bit word at an address.
unfoldable pub load_word : Mem → ℕ → ℕ
load_word m a = m a + 256 * m (a + 1) + 65536 * m (a + 2) + 16777216 * m (a + 3)

unfoldable pub store_word : Mem → ℕ → ℕ → Mem
store_word m a v =
    update
      (update (update (update m a (v % 256)) (a + 1) (v / 256 % 256)) (a + 2) (v / 65536 % 256))
      (a + 3) (v / 16777216 % 256)

unfoldable pub memset : Mem → ℕ → ℕ → ℕ → Mem
memset m p c n x = if leb p x && ltb x (p + n) then c else m x

-- For blocks that do not overlap, as C demands.
unfoldable pub memcpy : Mem → ℕ → ℕ → ℕ → Mem
memcpy m dst src n x = if leb dst x && ltb x (dst + n) then m (src + (x - dst)) else m x
