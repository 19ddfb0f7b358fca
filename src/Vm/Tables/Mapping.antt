-- ===== src/Vm/Tables/Mapping.antt =====
-- `page_map`: the new entry, and what it leaves alone.
use cs.Prelude.{
  ℕ, ◌+◌, ◌-◌, ◌%◌, ◌^◌, ◌≤◌, ◌<◌, ◌≡◌, refl, sym, ◌∙◌, ◌≢◌, true, arith, ==_of_ne, Outcome, ok,
  exits,
}
use native.Mathlib.Decide.{ℕ_discrete}
use cs.Bitmap.{Bitmap}
use cs.Bitmap.View.{bit}
use cs.Memory.{Mem}
use cs.Vm.State.{Vm, total_physical_pages, page_of, offset_of, pde_index}
use cs.Vm.Pages.Single.{full, found, get_next_avail_p-Search}
use cs.Vm.Tables.{directory_word, ensure_table, page_map, tlb_hits, tlb_index, add_tlb}
use cs.Vm.Tables.Layout.{
  IsData, KeepsData, with_entry-IsData, IsLaidOut-rest, IsLaidOut, entry_of, with_entry,
  with_entry-IsLaidOut, table_at-with_entry, entry_of-with_entry_self, entry_of-with_entry_ne,
}
use cs.Vm.Tables.Growth.{
  with_table-KeepsData, with_table, with_table-IsLaidOut, table_at-with_table_self,
  entry_of-with_table,
}

abbrev pub AllFramesUsed : Vm → Type 0
AllFramesUsed vm = (j : ℕ) → j < total_physical_pages → bit vm.physical_pages j ≡ 1

-- The pages but the one of `va` that had a table keep their entries.
abbrev pub KeepsEntries : ℕ → Vm → Vm → Type 0
KeepsEntries va vm vm' =
    (va' : ℕ)
    → va' < 2 ^ 32
    → directory_word vm va' ≢ 0
    → page_of va ≢ page_of va'
    → (directory_word vm' va' ≢ 0) × (entry_of vm' va' ≡ entry_of vm va')

-- What `ensure_table` comes to.
pub data Ensured (vm : Vm) (va : ℕ) (r : Outcome Vm) : Type 0 where
  no_frame : directory_word vm va ≡ 0 → AllFramesUsed vm → r ≡ exits 1 → Ensured vm va r
  ensured :
      (mem : Mem) (frames : Bitmap)
      → IsLaidOut (record vm { mem = mem; physical_pages = frames })
      → directory_word (record vm { mem = mem; physical_pages = frames }) va ≢ 0
      → KeepsEntries va vm (record vm { mem = mem; physical_pages = frames })
      → ((f : ℕ) → bit vm.physical_pages f ≡ 1 → bit frames f ≡ 1)
      → KeepsData vm (record vm { mem = mem; physical_pages = frames })
      → r ≡ ok (record vm { mem = mem; physical_pages = frames })
      → Ensured vm va r

module _ (vm : Vm) (s : IsLaidOut vm) (va : ℕ) (hva : va < 2 ^ 32) where
  ensure_new : directory_word vm va ≡ 0 → Ensured vm va (ensure_table vm va)
  unfolding ensure_table
  ensure_new fresh =
      elim (get_next_avail_p-Search vm s.frames_whole (omega (arith, s.frames_size))) [
        | full all e ↦ no_frame fresh (λ j h. all j (omega arith) h) (rw (fresh, e))
        | found p frames lo hi free below filled e ↦
            (let d = pde_index va in
              let hd : d < 1024 = omega arith in
              let self = table_at-with_table_self vm s d p frames hd fresh hi free filled in
              ensured (with_table vm d p frames).mem frames
                (with_table-IsLaidOut vm s d p frames hd fresh hi free filled)
                (omega (arith, self, s.ready))
                (λ va' h' mapped ne.
                  let kept =
                    entry_of-with_table vm s d p frames hd fresh hi free filled va' h' mapped in
                  (omega (arith, kept.0), kept.1))
                (λ f used. ground (arith, filled.bits f))
                (with_table-KeepsData vm s d p frames hd fresh hi free filled) (rw (fresh, e)))
      ]

  pub ensure_table-Ensured : Ensured vm va (ensure_table vm va)
  unfolding ensure_table
  ensure_table-Ensured = elim (ℕ_discrete (directory_word vm va) 0) [
    | yes fresh ↦ ensure_new fresh
    | no there ↦
        ensured vm.mem vm.physical_pages s there (λ va' h' mapped ne. (mapped, refl))
          (λ f used. used) (λ g used data_frame. data_frame) (rw (==_of_ne _ _ there))
  ]

-- What `page_map` comes to.
pub data Mapped (vm : Vm) (va pa : ℕ) (r : Outcome Vm) : Type 0 where
  no_frame : directory_word vm va ≡ 0 → AllFramesUsed vm → r ≡ exits 1 → Mapped vm va pa r
  mapped :
      (vm' : Vm)
      → IsLaidOut vm'
      → directory_word vm' va ≢ 0
      → entry_of vm' va + offset_of va ≡ pa
      → KeepsEntries va vm vm'
      → (tlb_hits vm' va ≡ true) × ((vm'.tlb_store (tlb_index (page_of va))).physical_address ≡ pa)
      → (vm'.tlb_store ≡ (add_tlb vm va pa).tlb_store)
        × (vm'.virtual_pages ≡ vm.virtual_pages)
        × (vm'.physical_memory ≡ vm.physical_memory)
      → ((f : ℕ) → bit vm.physical_pages f ≡ 1 → bit vm'.physical_pages f ≡ 1)
      → KeepsData vm vm'
      → r ≡ ok vm'
      → Mapped vm va pa r

add_tlb-cached :
    (vm : Vm) (va pa : ℕ)
    → (tlb_hits (add_tlb vm va pa) va ≡ true)
      × (((add_tlb vm va pa).tlb_store (tlb_index (page_of va))).physical_address ≡ pa)
unfolding add_tlb
add_tlb-cached vm va pa = (ground arith, ground arith)

tlb-IsData : (vm : Vm) (va pa g : ℕ) → IsData vm g → IsData (add_tlb vm va pa) g
unfolding add_tlb
tlb-IsData vm va pa g data_frame = record {
  behind = data_frame.behind;
  no_table = data_frame.no_table;
}

module _ (vm : Vm) (va pa : ℕ) (hva : va < 2 ^ 32) where
  -- `page_map` on a laid out memory, for a 32-bit address and a 32-bit physical address that is
  -- not below the offset: it exits only if the page has no table and no frame is left for one.
  -- Else the memory stays laid out, the page has a table, its entry is the address
  -- less the offset, the TLB holds the address itself, and the entries of all other pages with a
  -- table stay.
  pub page_map-Mapped :
      IsLaidOut vm → offset_of va ≤ pa → pa < 2 ^ 32 → Mapped vm va pa (page_map vm va pa)
  unfolding page_map add_tlb
  page_map-Mapped s lo hi = elim (ensure_table-Ensured vm s va hva) [
    | no_frame fresh all e ↦
        no_frame fresh all
          (rw (==_of_ne vm.page_directory 0 (omega (arith, s.ready, s.directory)), e))
    | ensured mem frames s' there keeps more stays e ↦
        (let vm1 : Vm = record vm { mem = mem; physical_pages = frames } in
          let v : ℕ = (pa + 2 ^ 32 - offset_of va) % 2 ^ 32 in
          let v-lt : v < 2 ^ 32 = omega arith in
          let self = entry_of-with_entry_self vm1 s' va v hva there v-lt in
          let vm2 : Vm = with_entry vm1 s' va v in
          mapped (add_tlb vm2 va pa)
            (IsLaidOut-rest vm2 _ _ _ _ (with_entry-IsLaidOut vm1 s' va v hva there))
            (λ z.
              there
                (sym (table_at-with_entry vm1 s' va v hva there (pde_index va) (omega arith)) ∙ z))
            (omega (arith, self))
            (λ va' h' m' ne.
              let k = keeps va' h' m' ne in
              (
                λ z. k.0 (
                    sym (table_at-with_entry vm1 s' va v hva there (pde_index va') (omega arith))
                    ∙ z),
                entry_of-with_entry_ne vm1 s' va v hva there va' h' k.0 ne ∙ k.1,
              ))
            (add_tlb-cached vm2 va pa) (refl, refl, refl) more
            (λ g used data_frame.
              tlb-IsData vm2 va pa g
                (with_entry-IsData vm1 s' va v hva there g (stays g used data_frame)))
            (rw (==_of_ne vm.page_directory 0 (omega (arith, s.ready, s.directory)), e)))
  ]
