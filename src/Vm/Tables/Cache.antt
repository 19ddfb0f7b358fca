-- ===== src/Vm/Tables/Cache.antt =====
-- `translate`: the TLB in front of the page tables.
use cs.Prelude.{
  ℕ, ◌+◌, ◌*◌, ◌%◌, ◌^◌, ◌<◌, ◌≡◌, ap, ◌∙◌, ◌≢◌, inl, inr, true, false, arith, ◌==◌, if◌then◌else◌,
  ==_of_ne, Bool-cases, refl, ◌⊎◌, Outcome, ok, exits, sym,
}
use native.Mathlib.Decide.{ℕ_discrete}
use cs.Vm.State.{Vm, Host, TlbEntry, minus_one, page_of, offset_of, pde_index, pte_index}
use cs.Vm.Tables.{directory_word, translate, walk_tables, check_tlb, tlb_hits, tlb_index, add_tlb}
use cs.Vm.Tables.Mapping.{KeepsEntries}
use cs.Vm.Tables.Layout.{entry_of}

abbrev pub cached : Vm → ℕ → ℕ
cached vm va = (vm.tlb_store (tlb_index (page_of va))).physical_address

-- What the TLB holds for a page is the entry of its page table.
abbrev pub IsCoherent : Vm → Type 0
IsCoherent vm =
    (va : ℕ)
    → va < 2 ^ 32
    → tlb_hits vm va ≡ true
    → (directory_word vm va ≢ 0) × (cached vm va ≡ entry_of vm va)

pub same_entry :
    (vm : Vm) (va va' : ℕ)
    → page_of va ≡ page_of va'
    → (directory_word vm va ≡ directory_word vm va') × (entry_of vm va ≡ entry_of vm va')
same_entry vm va va' e =
    let d : pde_index va ≡ pde_index va' = omega arith in
    let t : pte_index va ≡ pte_index va' = omega arith in (rw d, rw (d, t))

abbrev pub with_tlb : Vm → (ℕ → TlbEntry) → ℕ → ℕ → Vm
with_tlb vm tlb miss total = record vm { tlb_store = tlb; tlb_miss = miss; tlb_total = total }

add_tlb-IsCoherent :
    (vm : Vm) (va : ℕ)
    → IsCoherent vm
    → directory_word vm va ≢ 0
    → IsCoherent (add_tlb vm va (entry_of vm va))
unfolding add_tlb
add_tlb-IsCoherent vm va c there va' h' hit =
    elim (ℕ_discrete (tlb_index (page_of va)) (tlb_index (page_of va'))) [
      | yes same ↦
          (let page : page_of va ≡ page_of va' = ground arith in
            let e = same_entry vm va va' page in (λ z. there (e.0 ∙ z), ground (arith, e.1)))
      | no differ ↦
          (let hit' : tlb_hits vm va' ≡ true = ground arith in
            let k = c va' h' hit' in (k.0, ground (arith, k.1)))
    ]

-- What `translate` comes to for a page that the TLB holds.
pub data Translated (vm : Vm) (va : ℕ) (r : Outcome (ℕ × Vm)) : Type 0 where
  translated :
      (tlb : ℕ → TlbEntry) (miss total : ℕ)
      → directory_word vm va ≢ 0
      → IsCoherent (with_tlb vm tlb miss total)
      → ((va' : ℕ) → tlb_hits vm va' ≡ true → tlb_hits (with_tlb vm tlb miss total) va' ≡ true)
      → r ≡ ok (entry_of vm va + 4 * offset_of va, with_tlb vm tlb miss total)
      → Translated vm va r

add_tlb-hits :
    (vm : Vm) (va pa va' : ℕ)
    → tlb_hits vm va ≡ true
    → tlb_hits vm va' ≡ true
    → tlb_hits (add_tlb vm va pa) va' ≡ true
unfolding add_tlb
add_tlb-hits vm va pa va' hit hit' = ground arith

walk_tables-Translated :
    (vm : Vm) (va total : ℕ)
    → IsCoherent vm
    → directory_word vm va ≢ 0
    → tlb_hits vm va ≡ true
    → Translated vm va (walk_tables (record vm { tlb_total = total }) va)
unfolding walk_tables add_tlb
walk_tables-Translated vm va total c there hit =
    let vm0 : Vm = record vm { tlb_total = total } in
    let vm' : Vm = add_tlb vm0 va (entry_of vm va) in
    translated vm'.tlb_store vm'.tlb_miss vm'.tlb_total there (add_tlb-IsCoherent vm0 va c there)
      (λ va' hit'. add_tlb-hits vm0 va (entry_of vm va) va' hit hit') (rw (==_of_ne _ 0 there))

module _ (host : Host) (vm : Vm) (va : ℕ) (hva : va < 2 ^ 32) (ready : 0 < vm.page_directory) where
  -- A hit is looked up twice, and counted each time, unless it holds -1.
  pub translate_hit :
      tlb_hits vm va ≡ true
      → translate host vm va ≡ (
          if cached vm va == minus_one
          then walk_tables (record vm { tlb_total = (vm.tlb_total + 1) % 2 ^ 32 }) va
          else ok (
            cached vm va + 4 * offset_of va,
            record vm { tlb_total = ((vm.tlb_total + 1) % 2 ^ 32 + 1) % 2 ^ 32 },
          ))
  unfolding translate check_tlb
  translate_hit hit = rw (hit, hit, ==_of_ne vm.page_directory 0 (omega arith))

  translate_miss :
      tlb_hits vm va ≡ false
      → translate host vm va ≡ (
          if host.fall_off vm va == minus_one
          then walk_tables vm va
          else ok (host.fall_off vm va + 4 * offset_of va, vm))
  unfolding translate check_tlb
  translate_miss miss = rw (miss, miss, ==_of_ne vm.page_directory 0 (omega arith))

  walk_tables_ends :
      (vm1 : Vm) (n : ℕ)
      → (walk_tables (record vm1 { tlb_total = n }) va ≡ exits 1)
        ⊎ ((pa : ℕ) × (tlb : ℕ → TlbEntry) × (miss : ℕ) × (total : ℕ) × (walk_tables
                (record vm1 { tlb_total = n })
                va
              ≡ ok (pa, with_tlb vm1 tlb miss total)))
  unfolding walk_tables add_tlb
  walk_tables_ends vm1 n = elim (Bool-cases (directory_word vm1 va == 0)) [
    | inl absent ↦ inl (rw absent refl)
    | inr there ↦
        let vm' : Vm = add_tlb (record vm1 { tlb_total = n }) va (entry_of vm1 va) in
        inr (
          entry_of vm1 va + 4 * offset_of va,
          vm'.tlb_store,
          vm'.tlb_miss,
          vm'.tlb_total,
          rw there refl,
        )
  ]

  pub translate-Translated :
      tlb_hits vm va ≡ true → IsCoherent vm → Translated vm va (translate host vm va)
  translate-Translated hit c =
      rw (translate_hit hit) (elim (Bool-cases (cached vm va == minus_one)) [
        | inl same ↦ rw same (walk_tables-Translated vm va _ c (c va hva hit).0 hit)
        | inr other ↦ rw other (
            translated vm.tlb_store vm.tlb_miss (((vm.tlb_total + 1) % 2 ^ 32 + 1) % 2 ^ 32)
              (c va hva hit).0 c (λ va' hit'. hit')
              (ap
                (λ (k : ℕ). ok (
                  k + 4 * offset_of va,
                  record vm { tlb_total = ((vm.tlb_total + 1) % 2 ^ 32 + 1) % 2 ^ 32 },
                ))
                (c va hva hit).1))
      ])

  -- Whatever `check_TLB` leaves on a miss, `translate` exits, or returns and changes only the TLB.
  pub translate_ends :
      (translate host vm va ≡ exits 1)
      ⊎ ((pa : ℕ) × (tlb : ℕ → TlbEntry) × (miss : ℕ) × (total : ℕ) × (translate host vm va
            ≡ ok (pa, with_tlb vm tlb miss total)))
  translate_ends = elim (Bool-cases (tlb_hits vm va)) [
    | inl hit ↦ elim (Bool-cases (cached vm va == minus_one)) [
      | inl same ↦ elim (walk_tables_ends vm ((vm.tlb_total + 1) % 2 ^ 32)) [
        | inl e ↦ inl (translate_hit hit ∙ rw same e)
        | inr (pa, tlb, miss, total, e) ↦ inr (pa, tlb, miss, total, translate_hit hit ∙ rw same e)
      ]
      | inr other ↦ inr (
        cached vm va + 4 * offset_of va,
        vm.tlb_store,
        vm.tlb_miss,
        ((vm.tlb_total + 1) % 2 ^ 32 + 1) % 2 ^ 32,
        translate_hit hit ∙ rw other refl,
      )
    ]
    | inr miss ↦ elim (Bool-cases (host.fall_off vm va == minus_one)) [
      | inl same ↦ elim (walk_tables_ends vm vm.tlb_total) [
        | inl e ↦ inl (translate_miss miss ∙ rw same e)
        | inr (pa, tlb, misses, total, e) ↦
            inr (pa, tlb, misses, total, translate_miss miss ∙ rw same e)
      ]
      | inr other ↦ inr (
        host.fall_off vm va + 4 * offset_of va,
        vm.tlb_store,
        vm.tlb_miss,
        vm.tlb_total,
        translate_miss miss ∙ rw other refl,
      )
    ]
  ]

-- A state whose TLB is that of `vm` with `pa` put in for `va`, and whose tables hold the same.
pub mapped-IsCoherent :
    (vm vm' : Vm) (va pa : ℕ)
    → IsCoherent vm
    → vm'.tlb_store ≡ (add_tlb vm va pa).tlb_store
    → directory_word vm' va ≢ 0
    → entry_of vm' va ≡ pa
    → KeepsEntries va vm vm'
    → IsCoherent vm'
unfolding add_tlb
mapped-IsCoherent vm vm' va pa c tlb there e keeps va' h' hit =
    let hit1 : tlb_hits (add_tlb vm va pa) va' ≡ true =
      ap (λ t. tlb_hits (record vm { tlb_store = t }) va') (sym tlb) ∙ hit in
    let stored : cached vm' va' ≡ cached (add_tlb vm va pa) va' =
      ap (λ t. cached (record vm { tlb_store = t }) va') tlb in
    elim (ℕ_discrete (page_of va) (page_of va')) [
      | yes page ↦
          (let same = same_entry vm' va va' page in
            (λ z. there (same.0 ∙ z), ground (arith, same.1)))
      | no differ ↦
          (let old : tlb_hits vm va' ≡ true = ground arith in
            let k = c va' h' old in
            let kept = keeps va' h' k.0 differ in (kept.0, ground (arith, k.1, kept.1)))
    ]
