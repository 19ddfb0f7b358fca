-- ===== src/Vm/Tests/TwoPages.antt =====
-- A program that takes two pages of the memory of project3/code/my_vm.c.
use cs.Prelude.{ℕ, ◌+◌, ◌*◌, ◌≤◌, ◌<◌, ◌≡◌, refl, sym, ap, ◌∙◌, inr, true, arith, ok}
use cs.Bitmap.{set_bit_at_index, get_bit_at_index, set_mask, char_bit}
use cs.Bitmap.View.{bit}
use cs.Bitmap.Bits.{bit_of}
use cs.Memory.{load_word, store_word, memset}
use cs.Vm.State.{Vm}
use cs.Vm.Pages.{run_is_good, claim_run, first_run, get_next_avail, first_frame, get_next_avail_p}
use cs.Vm.Tables.{tlb_hits, add_tlb, ensure_table, page_map}
use cs.Vm.Tables.Layout.{entry_of}
use cs.Vm.Alloc.{
  set_physical_mem, set_pages, blank_vm, clear_directory, clear_tlb, map_pages, t_malloc, t_free,
}
use cs.Vm.Alloc.Start.{set_physical_mem-IsReady}
use cs.Vm.Access.{put_value, get_value}
use cs.Vm.Access.Fresh.{get_value-t_malloc}
use cs.Vm.Session.{Holds, malloc, Reached, started, stepped}
use cs.Vm.Session.Owned.{IsOwned}
use cs.Vm.Session.Isolation.{Reached-IsOwned, put_value-isolated, held_calls_return}
use cs.Vm.Tests.{
  host0, vm_null, vm0, vm0-IsReady, is_ok, value, ok_value, malloc_runs, malloc_result,
}

start_runs : set_physical_mem host0 vm_null ≡ ok vm0
start_runs =
    let (vm, e, ready) = set_physical_mem-IsReady host0 vm_null (omega arith) (omega arith) in
    e ∙ ap ok (sym (ap (value vm_null) e))

second_runs : is_ok (t_malloc host0 malloc_result.1 1) ≡ true
unfolding set_physical_mem set_pages blank_vm clear_directory clear_tlb map_pages t_malloc
    run_is_good claim_run first_run get_next_avail first_frame get_next_avail_p add_tlb ensure_table
    page_map set_bit_at_index get_bit_at_index set_mask char_bit load_word store_word memset
second_runs = refl

abbrev second : ℕ × Vm
second = value (0, vm_null) (t_malloc host0 malloc_result.1 1)

second-Reached : Reached host0 vm_null second.1
second-Reached =
    stepped malloc_result.1 second.1
      (stepped vm0 malloc_result.1 (started vm0 start_runs) (
        malloc 1 malloc_result.0 (omega arith) (omega arith)
          (ok_value (0, vm_null) (t_malloc host0 vm0 1) malloc_runs)))
      (malloc 1 second.0 (omega arith) (omega arith)
        (ok_value (0, vm_null) (t_malloc host0 malloc_result.1 1) second_runs))

used : (bit second.1.virtual_pages 1 ≡ 1) × (bit second.1.virtual_pages 2 ≡ 1)
unfolding bit_of set_physical_mem set_pages blank_vm clear_directory clear_tlb map_pages t_malloc
    run_is_good claim_run first_run get_next_avail first_frame get_next_avail_p add_tlb ensure_table
    page_map set_bit_at_index get_bit_at_index set_mask char_bit load_word store_word memset
used = (refl, refl)

base : second.1.physical_memory ≡ 4096
unfolding set_physical_mem set_pages blank_vm clear_directory clear_tlb map_pages t_malloc
    run_is_good claim_run first_run get_next_avail first_frame get_next_avail_p add_tlb ensure_table
    page_map set_bit_at_index get_bit_at_index set_mask char_bit load_word store_word memset
base = refl

hits : (tlb_hits second.1 4096 ≡ true) × (tlb_hits second.1 4100 ≡ true)
unfolding set_physical_mem set_pages blank_vm clear_directory clear_tlb map_pages t_malloc
    run_is_good claim_run first_run get_next_avail first_frame get_next_avail_p add_tlb ensure_table
    page_map set_bit_at_index get_bit_at_index set_mask char_bit load_word store_word memset
hits = (refl, refl)

first-Holds : Holds second.1 4096
first-Holds = record { small = omega arith; behind_zero = omega arith; used = used.0 }

second-Holds : Holds second.1 8192
second-Holds = record { small = omega arith; behind_zero = omega arith; used = used.1 }

Reached-IsOwned_example : IsOwned second.1
Reached-IsOwned_example =
    Reached-IsOwned host0 vm_null second.1 (omega arith) (omega arith) second-Reached

put_value-isolated_example :
    (vm' : Vm) × (put_value host0 second.1 4100 2000000000 4 ≡ ok vm')
    × ((x : ℕ)
        → x < 4096
        → vm'.mem (entry_of second.1 8192 + x) ≡ second.1.mem (entry_of second.1 8192 + x))
put_value-isolated_example =
    put_value-isolated host0 vm_null second.1 4100 8192 2000000000 4 (omega arith) (omega arith)
      second-Reached (record { small = omega arith; behind_zero = omega arith; used = used.0 })
      second-Holds hits.1 (λ z. omega arith) (omega arith) (omega arith)

held_calls_return_example :
    ((vm' : Vm) × (put_value host0 second.1 4096 2000000000 4 ≡ ok vm'))
    × ((vm' : Vm) × (get_value host0 second.1 4096 2000000000 4 ≡ ok vm'))
    × ((vm' : Vm) × (t_free host0 second.1 4096 4 ≡ ok vm'))
held_calls_return_example =
    held_calls_return host0 vm_null second.1 4096 2000000000 2000000000 4 (omega arith)
      (omega arith) second-Reached first-Holds hits.0 (omega arith) (omega arith) (omega arith)
      (inr (base_small 2000000000 second.1.physical_memory base (omega arith)))
  where
    base_small : (d b : ℕ) → b ≡ 4096 → 1073745920 ≤ d → b + 1024 * 1024 * 1024 ≤ d
    base_small d b e le = omega arith

first_base : vm0.physical_memory ≡ 4096
unfolding set_physical_mem set_pages blank_vm clear_directory clear_tlb map_pages t_malloc
    run_is_good claim_run first_run get_next_avail first_frame get_next_avail_p add_tlb ensure_table
    page_map set_bit_at_index get_bit_at_index set_mask char_bit load_word store_word memset
first_base = refl

get_value-t_malloc_example :
    (vm1 : Vm) × (vm2 : Vm) × (put_value host0 malloc_result.1 malloc_result.0 2000000000 4096
      ≡ ok vm1)
    × (get_value host0 vm1 malloc_result.0 2000008192 4096 ≡ ok vm2)
    × ((k : ℕ) → k < 4096 → vm2.mem (2000008192 + k) ≡ (malloc_result.1).mem (2000000000 + k))
get_value-t_malloc_example =
    get_value-t_malloc host0 vm0 1 malloc_result 2000000000 2000008192 4096 vm0-IsReady.laid_out
      vm0-IsReady.coherent vm0-IsReady.pages_whole vm0-IsReady.pages_size (omega arith)
      (omega arith) (ok_value (0, vm_null) (t_malloc host0 vm0 1) malloc_runs) (omega arith)
      (omega arith) (inr (above 2000000000 vm0.physical_memory first_base (omega arith)))
      (inr (above 2000008192 vm0.physical_memory first_base (omega arith)))
  where
    above : (d b : ℕ) → b ≡ 4096 → 1073745920 ≤ d → b + 1024 * 1024 * 1024 ≤ d
    above d b e le = omega arith
