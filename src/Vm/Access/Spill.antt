-- ===== src/Vm/Access/Spill.antt =====
-- `put_value` on a value of more than a page.
use cs.Prelude.{
  ℕ, ◌+◌, ◌-◌, ◌*◌, ◌%◌, ◌^◌, ◌≤◌, ◌<◌, ◌≡◌, sym, ap, ◌∙◌, ◌⊎◌, inl, inr, true, arith, ok,
}
use cs.Memory.{Mem, memcpy}
use cs.Memory.Blocks.{memcpy-inside, memcpy-outside}
use cs.Vm.State.{Vm, Host, page_of, offset_of, pages_needed, min}
use cs.Vm.Tables.{tlb_hits}
use cs.Vm.Tables.Layout.{IsLaidOut, frame_address, entry_of}
use cs.Vm.Tables.Frames.{ChangesOnly}
use cs.Vm.Tables.Cache.{IsCoherent, with_tlb, translated, translate-Translated, same_entry}
use cs.Vm.Tables.Layout.{IsData}
use cs.Vm.Tables.Data.{entry_of-rewrite}
use cs.Vm.Access.{put_value, put_pages}

pages_needed_two : (size : ℕ) → 4096 < size → size ≤ 8192 → pages_needed size ≡ ok 2
unfolding pages_needed
pages_needed_two size lo hi = ground arith

min_page : (size : ℕ) → 4096 < size → min size 4096 ≡ 4096
unfolding min
min_page size h = ground arith

same_hit :
    (vm : Vm) (va va' : ℕ)
    → page_of va ≡ page_of va'
    → tlb_hits vm va ≡ true
    → tlb_hits vm va' ≡ true
same_hit vm va va' page hit = rw (sym page) hit

min_rest : (size : ℕ) → size ≤ 8192 → min (size - 4096) 4096 ≡ size - 4096
unfolding min
min_rest size h = ground arith

module _ (host : Host) (vm : Vm) (s : IsLaidOut vm) (c : IsCoherent vm) (f : ℕ)
    (data_frame : IsData vm f) where
  -- On a laid out memory with a coherent TLB: a value of more than one page and at most two is put
  -- at the start of a page that the TLB holds and the tables map to a frame that is neither the directory nor a page table. The call returns, and memory is as
  -- before outside of that frame and the four bytes behind it. A byte of the second page of the
  -- value, if it did not itself stand in the frame, is now in the frame, four bytes behind its
  -- place in that second page.
  pub put_value_two :
      (va size val : ℕ)
      → va < 2 ^ 32
      → offset_of va ≡ 0
      → tlb_hits vm va ≡ true
      → entry_of vm va ≡ frame_address vm f
      → 4096 < size
      → size ≤ 8192
      → (vm' : Vm) × (put_value host vm va val size ≡ ok vm')
        × ((x : ℕ)
            → (x < frame_address vm f) ⊎ (frame_address vm f + 4100 ≤ x)
            → vm'.mem x ≡ vm.mem x)
        × ((k : ℕ)
            → k < size - 4096
            → (val + 4096 + k < frame_address vm f) ⊎ (frame_address vm f + 4096 ≤ val + 4096 + k)
            → vm'.mem (frame_address vm f + 4 + k) ≡ vm.mem (val + 4096 + k))
  unfolding put_value put_pages
  put_value_two va size val hva aligned hit entry lo hi =
      let there = (c va hva hit).0 in
      let ready : 0 < vm.page_directory = omega (arith, s.ready, s.directory) in
      let z0 : (va + 0) % 2 ^ 32 ≡ va = omega arith in
      let va1 : ℕ = (va + (0 + 1)) % 2 ^ 32 in
      let page : page_of va ≡ page_of va1 = omega arith in
      let m : Mem = memcpy vm.mem (entry_of vm va + 4 * offset_of va) val 4096 in
      let only : ChangesOnly vm f m = λ x o.
        memcpy-outside vm.mem (entry_of vm va + 4 * offset_of va) val 4096 x
          (elim o [ inl l ↦ inl (omega arith) | inr r ↦ inr (omega arith) ]) in
      elim (translate-Translated host vm va hva ready hit c) [
        | translated tlb miss total _ c1 keeps e ↦
            (let vm1 : Vm = record (with_tlb vm tlb miss total) { mem = m } in
              let there1 = same_entry vm va va1 page in
              let kept =
                entry_of-rewrite vm s f data_frame m only va1 (omega arith)
                  (λ z. there (there1.0 ∙ z)) in
              let c2 : IsCoherent vm1 = λ va' h hit.
                let k = c1 va' h hit in
                let j = entry_of-rewrite vm s f data_frame m only va' h k.0 in
                (λ z. k.0 (sym j.0 ∙ z), k.1 ∙ sym j.1) in
              elim (translate-Translated host vm1 va1 (omega arith) ready
                (keeps va1 (same_hit vm va va1 page hit)) c2) [
                  | translated tlb' miss' total' _ c3 keeps' e1 ↦
                      (let target : ℕ = entry_of vm1 va1 + 4 * offset_of va1 in
                        let spot : target ≡ frame_address vm f + 4 =
                          omega (arith, kept.1, there1.1) in
                        (
                          record (with_tlb vm1 tlb' miss' total') {
                            mem = memcpy m target (val + 4096) (size - 4096);
                          },
                          rw (
                            pages_needed_two size lo hi,
                            z0,
                            e,
                            min_page size lo,
                            e1,
                            min_rest size hi,
                          ),
                          λ x o.
                              memcpy-outside m target (val + 4096) (size - 4096) x
                                (elim o [ inl l ↦ inl (omega arith) | inr r ↦ inr (omega arith) ])
                              ∙ only x (elim o [
                                | inl l ↦ inl (omega arith)
                                | inr r ↦ inr (omega arith)
                              ]),
                          λ k h far.
                              ap (λ q. memcpy m target (val + 4096) (size - 4096) (q + k))
                                (sym spot)
                              ∙ memcpy-inside m target (val + 4096) (size - 4096) k h
                              ∙ only (val + 4096 + k) far,
                        ))
                ])
      ]
