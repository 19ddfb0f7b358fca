-- ===== src/Vm/Tests/OnePage.antt =====
-- Runs on a memory of project3/code/my_vm.c in which one page is mapped.

use cs.Prelude.{
  ℕ, ◌+◌, ◌-◌, ◌≤◌, ◌<◌, ◌≡◌, refl, sym, ap, ◌∙◌, ◌≢◌, ◌⊎◌, inl, inr, true, false, arith, ◌==◌,
  if◌then◌else◌, ==_iff, Bool-cases, ok, exits,
}
use cs.Bitmap.{set_bit_at_index, get_bit_at_index, set_mask, char_bit}
use cs.Bitmap.View.{IsBytes}
use cs.Bitmap.Bits.{bit_of}
use cs.Memory.{load_word, store_word, memset}
use cs.Vm.State.{TlbEntry, page_of, Vm, total_virtual_pages}
use cs.Vm.Pages.{run_is_good, claim_run, first_run, get_next_avail, first_frame, get_next_avail_p}
use cs.Vm.Tables.Kept.{Kept}
use cs.Vm.Tables.{tlb_index, add_tlb, tlb_hits, directory_word, ensure_table, page_map}
use cs.Vm.Tables.Layout.{IsLaidOut, entry_of}
use cs.Vm.Tables.Cache.{IsCoherent, cached, same_entry}
use cs.Vm.Alloc.{
  set_physical_mem, set_pages, blank_vm, clear_directory, clear_tlb, map_pages, t_malloc,
}
use cs.Vm.Alloc.Free.{t_free_page, t_free_twice}
use cs.Vm.Alloc.{t_free}
use cs.Bitmap.View.{Marks}
use cs.Vm.Pages.FirstFit.{IsRun, get_next_avail-IsRun}
use cs.Vm.Tables.Layout.{table_at}
use cs.Vm.Tables.Layout.{IsData}
use cs.Vm.Access.{put_value, get_value}
use cs.Vm.Access.RoundTrip.{get_value-put_value}
use cs.Vm.Access.Spill.{put_value_two}
use cs.Vm.Tests.{no_entry, host0, vm_null, is_ok, value, ok_value}

-- A page table in frame 1 maps page 1 to frame 2, and the TLB holds it.
abbrev page_one_entry : TlbEntry
page_one_entry = record { vpn = 1; physical_address = 12288; most_recent_tlb_use = 0; valid = 1 }

abbrev vm_mapped : Vm
vm_mapped = record {
  mem = store_word (store_word (λ _. 0) 4096 8192) 8196 12288;
  physical_memory = 4096;
  page_directory = 4096;
  virtual_pages = record { bytes = λ i. if i == 0 then 3 else 0; size = 131072 };
  physical_pages = record { bytes = λ i. if i == 0 then 7 else 0; size = 32768 };
  tlb_store = λ i. if i == 1 then page_one_entry else no_entry;
  tlb_miss = 0;
  tlb_total = 0;
}

other_tables : (d : ℕ) → d ≢ 0 → d < 1024 → table_at vm_mapped d ≡ 0
unfolding load_word store_word
other_tables d ne lt = ground arith

only_table : (d : ℕ) → d < 1024 → table_at vm_mapped d ≢ 0 → d ≡ 0
only_table d lt n = elim (Bool-cases (d == 0)) [
  | inl zero_d ↦ (==_iff d 0).0 zero_d
  | inr other ↦ absurd (n (other_tables d (λ e. ground arith) lt))
]

vm_mapped-IsLaidOut : IsLaidOut vm_mapped
unfolding load_word store_word bit_of
vm_mapped-IsLaidOut = record {
  ready = omega arith;
  room = omega arith;
  directory = refl;
  frames_whole = λ j. ground arith;
  frames_size = refl;
  directory_used = refl;
  tables =
      λ d lt n. (1, ap (table_at vm_mapped) (only_table d lt n), omega arith, omega arith, refl);
  apart = λ d e ld le ne nd ne'. absurd (ne (only_table d ld nd ∙ sym (only_table e le ne')));
}

page_one : (va : ℕ) → tlb_hits vm_mapped va ≡ true → page_of va ≡ 1
page_one va hit = ground (arith, hit)

vm_mapped-IsCoherent : IsCoherent vm_mapped
unfolding load_word store_word
vm_mapped-IsCoherent va lt hit =
    let page = page_one va hit in
    let same = same_entry vm_mapped va 4096 page in
    let held : cached vm_mapped va ≡ 12288 =
      ap (λ p. (vm_mapped.tlb_store (tlb_index p)).physical_address) page in
    (λ z. nonzero (directory_word vm_mapped va) same.0 z, held ∙ sym same.1)
  where
    nonzero : (n : ℕ) → n ≡ 8192 → n ≢ 0
    nonzero n e z = omega arith

vm_mapped-IsData : IsData vm_mapped 2
unfolding load_word store_word
vm_mapped-IsData = record {
  behind = omega arith;
  no_table = λ d lt n e. absurd (apart (sym (ap (table_at vm_mapped) (only_table d lt n)) ∙ e));
}
  where
    apart : table_at vm_mapped 0 ≢ 12288
    apart e = omega arith

pages_whole : IsBytes vm_mapped.virtual_pages
pages_whole j = ground arith

avail_runs : is_ok (get_next_avail vm_mapped 3) ≡ true
unfolding set_physical_mem set_pages blank_vm clear_directory clear_tlb map_pages t_malloc
    run_is_good claim_run first_run get_next_avail first_frame get_next_avail_p add_tlb ensure_table
    page_map set_bit_at_index get_bit_at_index set_mask char_bit load_word store_word memset
avail_runs = refl

abbrev avail : ℕ × Vm
avail = value (0, vm_null) (get_next_avail vm_mapped 3)

get_next_avail-IsRun_example :
    (avail.0 < total_virtual_pages)
    × IsRun vm_mapped.virtual_pages 3 avail.0 avail.1.virtual_pages
    × (avail.1 ≡ record vm_mapped { virtual_pages = avail.1.virtual_pages })
get_next_avail-IsRun_example =
    get_next_avail-IsRun vm_mapped 3 {p = avail.0} {vm' = avail.1} pages_whole (omega arith)
      (ok_value (0, vm_null) (get_next_avail vm_mapped 3) avail_runs)

-- Pages 0 and 7 are in use.
abbrev vm_ends : Vm
vm_ends = record vm_mapped {
  virtual_pages = record { bytes = λ i. if i == 0 then 129 else 0; size = 131072 };
}

t_free_page_example :
    (vm' : Vm) × (t_free host0 vm_mapped 4096 100 ≡ ok vm')
    × Marks 0 vm_mapped.virtual_pages 1 vm'.virtual_pages
    × Marks 0 vm_mapped.physical_pages 2 vm'.physical_pages
    × ((x : ℕ) → 12288 ≤ x → x < 12288 + 4096 → vm'.mem x ≡ 0)
    × (tlb_hits vm' 4096 ≡ false)
    × (directory_word vm' 4096 ≢ 0)
    × (entry_of vm' 4096 ≡ 12288)
    × Kept vm_mapped vm'
unfolding load_word store_word bit_of
t_free_page_example =
    t_free_page host0 vm_mapped vm_mapped-IsLaidOut vm_mapped-IsCoherent pages_whole refl 4096 100
      (omega arith) (omega arith) (omega arith) 2 vm_mapped-IsData refl refl refl (omega arith) refl
      refl

t_free_twice_example : t_free host0 vm_mapped 8192 1 ≡ exits 1
unfolding bit_of
t_free_twice_example =
    t_free_twice host0 vm_mapped vm_mapped-IsLaidOut vm_mapped-IsCoherent pages_whole refl 8192 1
      (omega arith) (omega arith) (omega arith) refl

get_value-put_value_example :
    (vm1 : Vm) × (vm2 : Vm) × (put_value host0 vm_mapped 4100 20000 4 ≡ ok vm1)
    × (get_value host0 vm1 4100 30000 4 ≡ ok vm2)
    × ((k : ℕ) → k < 4 → vm2.mem (30000 + k) ≡ vm_mapped.mem (20000 + k))
unfolding load_word store_word
get_value-put_value_example =
    get_value-put_value host0 vm_mapped vm_mapped-IsLaidOut vm_mapped-IsCoherent 2 vm_mapped-IsData
      4100 4 20000 30000 (omega arith) refl refl (omega arith) (omega arith) (inr (omega arith))
      (inr (omega arith))

put_value_two_example :
    (vm' : Vm) × (put_value host0 vm_mapped 4096 40000 5000 ≡ ok vm')
    × ((x : ℕ) → (x < 12288) ⊎ (12288 + 4100 ≤ x) → vm'.mem x ≡ vm_mapped.mem x)
    × ((k : ℕ)
        → k < 5000 - 4096
        → (40000 + 4096 + k < 12288) ⊎ (12288 + 4096 ≤ 40000 + 4096 + k)
        → vm'.mem (12288 + 4 + k) ≡ vm_mapped.mem (40000 + 4096 + k))
unfolding load_word store_word
put_value_two_example =
    put_value_two host0 vm_mapped vm_mapped-IsLaidOut vm_mapped-IsCoherent 2 vm_mapped-IsData 4096
      5000 40000 (omega arith) refl refl refl (omega arith) (omega arith)
