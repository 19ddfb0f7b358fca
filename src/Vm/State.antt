-- ===== src/Vm/State.antt =====
-- The globals of project3/code/my_vm.c, the constants of my_vm.h, and what the code takes from
-- its surroundings.
use cs.Prelude.{ℕ, ◌+◌, ◌-◌, ◌*◌, ◌/◌, ◌%◌, ◌^◌, ltb, if◌then◌else◌, Outcome, ok, fault}
use cs.Bitmap.{Bitmap}
use cs.Memory.{Mem}

abbrev pub pgsize : ℕ
pgsize = 4096

abbrev pub memsize : ℕ
memsize = 1024 * 1024 * 1024

abbrev pub tlb_entries : ℕ
tlb_entries = 512

-- MAX_MEMSIZE / PGSIZE and MEMSIZE / PGSIZE.
abbrev pub total_virtual_pages : ℕ
total_virtual_pages = 4 * 1024 * 1024 * 1024 / 4096

abbrev pub total_physical_pages : ℕ
total_physical_pages = memsize / pgsize

-- `(void *)-1`, and `(unsigned int)-1`.
abbrev pub minus_one : ℕ
minus_one = 2 ^ 32 - 1

-- `struct tlb`.
pub record TlbEntry : Type 0 where
  pub vpn : ℕ
  pub physical_address : ℕ
  pub most_recent_tlb_use : ℕ
  pub valid : ℕ

-- The globals. A pointer is an address, 0 when it is NULL. `set_physical_mem` gives `offsetBits`
-- 12, `PTEBits` and `PDEBits` 10, `totalBits` 32 and `TLBIndexBits` 9, which stand in the code as
-- those numbers: a shift by 12 is `/ 4096`, and so on.
pub record Vm : Type 0 where
  pub mem : Mem
  pub physical_memory : ℕ
  pub page_directory : ℕ
  pub virtual_pages : Bitmap
  pub physical_pages : Bitmap
  pub tlb_store : ℕ → TlbEntry
  pub tlb_miss : ℕ
  pub tlb_total : ℕ

-- The surroundings: the addresses that `malloc` gives, what stands in a fresh TLB, and the addresses
-- of the locals of `mat_mult`; and what the caller of `check_TLB` finds as its result when that
-- function ends with no `return`. The use of that result is undefined: `fall_off` is any value.
pub record Host : Type 0 where
  pub physical_block : ℕ
  pub fresh_tlb : ℕ → TlbEntry
  pub fall_off : Vm → ℕ → ℕ
  pub local_a : ℕ
  pub local_b : ℕ
  pub local_c : ℕ

-- The parts of a virtual address.
abbrev pub page_of : ℕ → ℕ
page_of va = va / 4096

abbrev pub offset_of : ℕ → ℕ
offset_of va = va % 4096

abbrev pub pde_index : ℕ → ℕ
pde_index va = va / 4194304

abbrev pub pte_index : ℕ → ℕ
pte_index va = va / 4096 % 1024

-- `(size + PGSIZE - 1) / PGSIZE` on `int`, for `0 ≤ size`: an overflow, of the sum first, is
-- undefined.
unfoldable pub pages_needed : ℕ → Outcome ℕ
pages_needed size = if ltb (size + 4096) (2 ^ 31) then ok ((size + pgsize - 1) / pgsize) else fault

unfoldable pub min : ℕ → ℕ → ℕ
min a b = if ltb a b then a else b
