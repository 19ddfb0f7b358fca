-- ===== src/Vm/Tests.antt =====
-- Runs of the memory of project3/code/my_vm.c at concrete inputs.
mod OnePage
mod TwoPages
use mathlib.Core.Path.{subst}
use cs.Prelude.{
  ℕ, ◌+◌, ◌-◌, ◌*◌, ◌≤◌, ◌<◌, ◌≡◌, refl, sym, ap, ◌∙◌, ◌≢◌, ◌⊎◌, inl, inr, Bool, true, false, arith,
  ◌==◌, if◌then◌else◌, ==_iff, Bool-cases, Outcome, ok, exits, fault, out_of_fuel,
}
use cs.Bitmap.{Bitmap, set_bit_at_index, get_bit_at_index, set_mask, char_bit}
use cs.Bitmap.View.{IsBytes, bit}
use cs.Bitmap.Bits.{bit_of}
use cs.Memory.{load_word, store_word, memset}
use cs.Vm.State.{Vm, Host, TlbEntry, minus_one, total_virtual_pages, total_physical_pages}
use cs.Vm.Pages.{run_is_good, claim_run, first_run, get_next_avail, first_frame, get_next_avail_p}
use cs.Vm.Tables.{add_tlb, tlb_hits, directory_word, ensure_table, page_map}
use cs.Vm.Tables.Layout.{IsLaidOut, entry_of}
use cs.Vm.Tables.Cache.{IsCoherent}
use cs.Vm.Alloc.{
  set_physical_mem, set_pages, blank_vm, clear_directory, clear_tlb, map_pages, t_malloc,
}
use cs.Vm.Alloc.Mapped.{IsMapped}
use cs.Vm.Alloc.Start.{IsReady, set_physical_mem-IsReady}
use cs.Vm.Alloc.OnePage.{Allocates, t_malloc-Allocates}
use cs.Vm.Alloc.Malloc.{t_malloc-IsMapped, pages_of}
use cs.Vm.Alloc.Free.{t_free_page, t_free_twice}
use cs.Vm.Alloc.{t_free}
use cs.Bitmap.View.{Marks}
use cs.Vm.Pages.Single.{Search, get_next_avail_p-Search}
use cs.Vm.Pages.FirstFit.{IsRun, get_next_avail-IsRun}
use cs.Vm.Pages.Overlap.{get_next_avail_of_clear_ends}
use cs.Vm.Tables.Mapping.{Mapped, page_map-Mapped}
use cs.Vm.Tables.Layout.{table_at}
use cs.Vm.Tables.Layout.{IsData}
use cs.Vm.Tables.Cache.{Translated, translate-Translated}
use cs.Vm.Tables.{translate}
use cs.Vm.Access.{put_value, get_value}
use cs.Vm.Access.RoundTrip.{get_value-put_value}
use cs.Vm.Access.Spill.{put_value_two}

abbrev no_entry : TlbEntry
no_entry = record { vpn = 0; physical_address = 0; most_recent_tlb_use = 0; valid = 0 }

abbrev host0 : Host
host0 = record {
  physical_block = 4096;
  fresh_tlb = λ _. no_entry;
  fall_off = λ _ _. 7;
  local_a = 0;
  local_b = 4;
  local_c = 8;
}

abbrev no_pages : Bitmap
no_pages = record { bytes = λ _. 0; size = 0 }

abbrev vm_null : Vm
vm_null = record {
  mem = λ _. 0;
  physical_memory = 0;
  page_directory = 0;
  virtual_pages = no_pages;
  physical_pages = no_pages;
  tlb_store = λ _. no_entry;
  tlb_miss = 0;
  tlb_total = 0;
}

abbrev is_ok {ℓ} : {A : Type ℓ} → Outcome A → Bool
is_ok (ok a) = true
is_ok (exits c) = false
is_ok fault = false
is_ok out_of_fuel = false

abbrev value {ℓ} : {A : Type ℓ} → A → Outcome A → A
value d (ok a) = a
value d (exits c) = d
value d fault = d
value d out_of_fuel = d

pub ok_value {ℓ} : {A : Type ℓ} (d : A) (r : Outcome A) → is_ok r ≡ true → r ≡ ok (value d r)
ok_value d (ok a) e = refl
ok_value d (exits c) e = cc
ok_value d fault e = cc
ok_value d out_of_fuel e = cc

abbrev pub vm0 : Vm
vm0 = value vm_null (set_physical_mem host0 vm_null)

pub vm0-IsReady : IsReady vm0
vm0-IsReady =
    let (vm, e, ready) = set_physical_mem-IsReady host0 vm_null (omega arith) (omega arith) in
    subst IsReady (sym (ap (value vm_null) e)) ready

set_physical_mem-IsReady_example :
    (vm' : Vm) × (set_physical_mem host0 vm_null ≡ ok vm') × IsReady vm'
set_physical_mem-IsReady_example =
    set_physical_mem-IsReady host0 vm_null (omega arith) (omega arith)

pub malloc_runs : is_ok (t_malloc host0 vm0 1) ≡ true
unfolding set_physical_mem set_pages blank_vm clear_directory clear_tlb map_pages t_malloc
    run_is_good claim_run first_run get_next_avail first_frame get_next_avail_p add_tlb ensure_table
    page_map set_bit_at_index get_bit_at_index set_mask char_bit load_word store_word memset
malloc_runs = refl

abbrev pub malloc_result : ℕ × Vm
malloc_result = value (0, vm_null) (t_malloc host0 vm0 1)

t_malloc-IsMapped_example :
    (p : ℕ) × (malloc_result.0 ≡ p * 4096)
    × IsRun vm0.virtual_pages (pages_of 1) p malloc_result.1.virtual_pages
    × IsMapped
        (record vm0 { virtual_pages = malloc_result.1.virtual_pages })
        malloc_result.1
        p
        (pages_of 1)
t_malloc-IsMapped_example =
    t_malloc-IsMapped host0 vm0 1 {a = malloc_result.0} {vm' = malloc_result.1} vm0-IsReady.laid_out
      vm0-IsReady.coherent vm0-IsReady.pages_whole vm0-IsReady.pages_size
      (ok_value (0, vm_null) (t_malloc host0 vm0 1) malloc_runs)

page_map-Mapped_example : Mapped vm0 20481 16385 (page_map vm0 20481 16385)
page_map-Mapped_example =
    page_map-Mapped vm0 20481 16385 (omega arith) vm0-IsReady.laid_out (omega arith) (omega arith)

mapping_runs : is_ok (page_map vm0 20481 16385) ≡ true
unfolding set_physical_mem set_pages blank_vm clear_directory clear_tlb map_pages t_malloc
    run_is_good claim_run first_run get_next_avail first_frame get_next_avail_p add_tlb ensure_table
    page_map set_bit_at_index get_bit_at_index set_mask char_bit load_word store_word memset
mapping_runs = refl

t_malloc-Allocates_example : Allocates vm0 (t_malloc host0 vm0 4096)
t_malloc-Allocates_example =
    t_malloc-Allocates host0 vm0 4096 vm0-IsReady.laid_out vm0-IsReady.coherent
      vm0-IsReady.pages_whole vm0-IsReady.pages_size (omega arith) (omega arith)
