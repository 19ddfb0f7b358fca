-- ===== src/Vm/Session.antt =====
-- The calls of a program on project3/code/my_vm.c as steps: each of at most a page, and each on
-- pages that the program holds.
pub mod Owned
pub mod Steps
pub mod Isolation
use cs.Prelude.{
  ℕ, zero, suc, ◌+◌, ◌-◌, ◌*◌, ◌/◌, ◌%◌, ◌^◌, ◌≤◌, ◌<◌, bit_and, bit_or, ◌≡◌, refl, sym, ap, ◌∙◌,
  fun_ext, ◌≢◌, ◌↔◌, ◌⊎◌, inl, inr, Bool, true, false, ◌&&◌, ◌||◌, Option, none, some, List, [],
  ◌∷◌, ◌++◌, arith, ltb, leb, ◌==◌, if◌then◌else◌, ==_iff, ==_refl, ==_of_ne, Bool-cases, update, ℤ,
  pos, negsuc, signed_char, shift_right, rem_two, is_zero, is_one, Outcome, ok, exits, fault,
  out_of_fuel, ◌>>=◌, >>=-eq-ok, length, ok-transport,
}
use cs.Bitmap.View.{bit}
use cs.Vm.Tables.{tlb_hits}
use cs.Vm.State.{Vm, Host, memsize, total_virtual_pages, page_of, offset_of}
use cs.Vm.Alloc.{set_physical_mem, t_malloc, t_free}
use cs.Vm.Access.{put_value, get_value}

-- The page of an address is one that `t_malloc` handed out: page 0 never is.
pub record Holds (vm : Vm) (va : ℕ) : Type 0 where
  pub small : va < 2 ^ 32
  pub behind_zero : 0 < page_of va
  pub used : bit vm.virtual_pages (page_of va) ≡ 1

-- A call that returns. The TLB holds the page that a call is on: else what `check_TLB` gives is
-- undefined.
pub data Step (host : Host) (vm vm' : Vm) : Type 0 where
  malloc :
      (num_bytes va : ℕ)
      → 0 < num_bytes
      → num_bytes ≤ 4096
      → t_malloc host vm num_bytes ≡ ok (va, vm')
      → Step host vm vm'
  free :
      (va size : ℕ)
      → Holds vm va
      → tlb_hits vm va ≡ true
      → offset_of va ≡ 0
      → 0 < size
      → size ≤ 4096
      → t_free host vm va size ≡ ok vm'
      → Step host vm vm'
  put :
      (va val size : ℕ)
      → Holds vm va
      → tlb_hits vm va ≡ true
      → 0 < size
      → 4 * offset_of va + size ≤ 4096
      → (val + size ≤ vm.physical_memory) ⊎ (vm.physical_memory + memsize ≤ val)
      → put_value host vm va val size ≡ ok vm'
      → Step host vm vm'
  get :
      (va dst size : ℕ)
      → Holds vm va
      → tlb_hits vm va ≡ true
      → 0 < size
      → size ≤ 4096
      → (dst + size ≤ vm.physical_memory) ⊎ (vm.physical_memory + memsize ≤ dst)
      → get_value host vm va dst size ≡ ok vm'
      → Step host vm vm'

-- A state that is reached from the start.
pub data Reached (host : Host) (blank : Vm) : Vm → Type 0 where
  started : (vm : Vm) → set_physical_mem host blank ≡ ok vm → Reached host blank vm
  stepped :
      (before vm : Vm) → Reached host blank before → Step host before vm → Reached host blank vm
