-- ===== src/Vm/Tables.antt =====
-- The TLB and the page tables: `add_TLB`, `check_TLB`, `free_TLB`, `translate` and `page_map` of
-- project3/code/my_vm.c.
pub mod Layout
pub mod Growth
pub mod Mapping
pub mod Frames
pub mod Cache
pub mod Data
pub mod Kept
use cs.Prelude.{
  ℕ, ◌+◌, ◌-◌, ◌*◌, ◌%◌, ◌^◌, Bool, ◌&&◌, ◌==◌, if◌then◌else◌, update, Outcome, ok, exits, fault,
  ◌>>=◌,
}
use cs.Memory.{load_word, store_word}
use cs.Vm.State.{Vm, Host, minus_one, page_of, offset_of, pde_index, pte_index}
use cs.Vm.Pages.{get_next_avail_p}

abbrev pub tlb_index : ℕ → ℕ
tlb_index vpn = vpn % 512

unfoldable pub add_tlb : Vm → ℕ → ℕ → Vm
add_tlb vm va pa =
    let i = tlb_index (page_of va) in
    let old = vm.tlb_store i in
    record vm {
      tlb_total = (vm.tlb_total + 1) % 2 ^ 32;
      tlb_miss = (vm.tlb_miss + 1) % 2 ^ 32;
      tlb_store =
          update vm.tlb_store i (record old { vpn = page_of va; physical_address = pa; valid = 1 });
    }

abbrev pub tlb_hits : Vm → ℕ → Bool
tlb_hits vm va =
    let e = vm.tlb_store (tlb_index (page_of va)) in e.valid == 1 && e.vpn == page_of va

-- On a hit the address of the frame; else the function ends with no `return`.
unfoldable pub check_tlb : Host → Vm → ℕ → ℕ × Vm
check_tlb host vm va =
    if tlb_hits vm va
    then (
      (vm.tlb_store (tlb_index (page_of va))).physical_address,
      record vm { tlb_total = (vm.tlb_total + 1) % 2 ^ 32 },
    )
    else (host.fall_off vm va, vm)

unfoldable pub free_tlb : Vm → ℕ → Vm
free_tlb vm vpn =
    let i = tlb_index vpn in
    let old = vm.tlb_store i in
    record vm { tlb_store = update vm.tlb_store i (record old { valid = 0 }) }

-- The word in the page directory, and the word in the page table that it points to.
abbrev pub directory_word : Vm → ℕ → ℕ
directory_word vm va = load_word vm.mem (vm.page_directory + 4 * pde_index va)

abbrev pub entry_address : Vm → ℕ → ℕ
entry_address vm va = directory_word vm va + 4 * pte_index va

-- `translate` behind the TLB: the walk over the tables, with the entry put in the TLB. An offset
-- added to a `pte_t *` counts words of four bytes.
unfoldable pub walk_tables : Vm → ℕ → Outcome (ℕ × Vm)
walk_tables vm va =
    if directory_word vm va == 0
    then exits 1
    else (let entry = load_word vm.mem (entry_address vm va) in
        ok (entry + 4 * offset_of va, add_tlb vm va entry))

-- Both calls of `check_TLB`. Before `set_physical_mem` the TLB is a NULL pointer.
unfoldable pub translate : Host → Vm → ℕ → Outcome (ℕ × Vm)
translate host vm va =
    let (found, vm') = check_tlb host vm va in
    let (again, vm'') = check_tlb host vm' va in
    if vm.page_directory == 0
    then fault
    else if found == minus_one
    then walk_tables vm' va
    else ok (again + 4 * offset_of va, vm'')

-- The directory entry is filled in if it is NULL; the new page table is not cleared.
unfoldable pub ensure_table : Vm → ℕ → Outcome Vm
ensure_table vm va =
    if directory_word vm va == 0
    then get_next_avail_p vm >>= (λ r.
      let vm' = r.1 in
      ok (record vm' { mem = store_word vm'.mem (vm'.page_directory + 4 * pde_index va) r.0 }))
    else ok vm

-- `pa - offset` is on a `void *`, in bytes.
unfoldable pub page_map : Vm → ℕ → ℕ → Outcome Vm
page_map vm va pa =
    if vm.page_directory == 0
    then fault
    else ensure_table vm va >>= (λ vm'. ok (
        add_tlb
          (record vm' {
            mem = store_word vm'.mem (entry_address vm' va) ((pa + 2 ^ 32 - offset_of va) % 2 ^ 32);
          })
          va pa))
