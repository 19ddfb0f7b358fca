-- ===== src/Vm/Access/RoundTrip.antt =====
-- `put_value` and then `get_value`, on a value that fits in its frame.
use cs.Prelude.{ℕ, ◌+◌, ◌*◌, ◌%◌, ◌^◌, ◌≤◌, ◌<◌, ◌≡◌, sym, ap, ◌∙◌, ◌⊎◌, inl, inr, true, arith, ok}
use cs.Memory.{Mem, memcpy}
use cs.Memory.Blocks.{memcpy-inside, memcpy-outside}
use cs.Vm.State.{TlbEntry, Vm, Host, offset_of, pages_needed, min, TlbEntry}
use cs.Vm.Tables.{tlb_hits}
use cs.Vm.Tables.Layout.{IsLaidOut, frame_address, entry_of}
use cs.Vm.Tables.Frames.{ChangesOnly}
use cs.Vm.Tables.Cache.{IsCoherent, with_tlb, translated, translate-Translated}
use cs.Vm.Tables.Layout.{IsData}
use cs.Vm.Tables.Data.{entry_of-rewrite}
use cs.Vm.Access.{put_value, put_pages, get_value, get_pages}

-- The physical address of a page with a table.
abbrev pub physical : Vm → ℕ → ℕ
physical vm va = entry_of vm va + 4 * offset_of va

pages_needed_one : (size : ℕ) → 0 < size → size ≤ 4096 → pages_needed size ≡ ok 1
unfolding pages_needed
pages_needed_one size lo hi = ground arith

min_fits : (size : ℕ) → size ≤ 4096 → min size 4096 ≡ size
unfolding min
min_fits size h = ground arith

module _ (host : Host) (vm : Vm) (va size : ℕ) (hva : va < 2 ^ 32) (hit : tlb_hits vm va ≡ true)
    (ready : 0 < vm.page_directory) (c : IsCoherent vm) (lo : 0 < size) (hi : size ≤ 4096) where
  -- One round: the value goes to the physical address.
  pub put_value_one :
      (val : ℕ)
      → (tlb : ℕ → TlbEntry) × (miss : ℕ) × (total : ℕ) × IsCoherent (with_tlb vm tlb miss total)
        × ((va' : ℕ) → tlb_hits vm va' ≡ true → tlb_hits (with_tlb vm tlb miss total) va' ≡ true)
        × (put_value host vm va val size
            ≡ ok (record (with_tlb vm tlb miss total) {
              mem = memcpy vm.mem (physical vm va) val size;
            }))
  unfolding put_value put_pages
  put_value_one val =
      let z : (va + 0) % 2 ^ 32 ≡ va = omega arith in
      elim (translate-Translated host vm va hva ready hit c) [
        | translated tlb miss total _ c' keeps e ↦
            (tlb, miss, total, c', keeps, rw (pages_needed_one size lo hi, z, e, min_fits size hi))
      ]

  -- One round: the value comes from the physical address.
  pub get_value_one :
      (val : ℕ)
      → (tlb : ℕ → TlbEntry) × (miss : ℕ) × (total : ℕ) × IsCoherent (with_tlb vm tlb miss total)
        × ((va' : ℕ) → tlb_hits vm va' ≡ true → tlb_hits (with_tlb vm tlb miss total) va' ≡ true)
        × (get_value host vm va val size
            ≡ ok (record (with_tlb vm tlb miss total) {
              mem = memcpy vm.mem val (physical vm va) size;
            }))
  unfolding get_value get_pages
  get_value_one val =
      let z : (va + 0) % 2 ^ 32 ≡ va = omega arith in
      elim (translate-Translated host vm va hva ready hit c) [
        | translated tlb miss total _ c' keeps e ↦
            (tlb, miss, total, c', keeps, rw (pages_needed_one size lo hi, z, e, min_fits size hi))
      ]

module _ (host : Host) (vm : Vm) (s : IsLaidOut vm) (c : IsCoherent vm) (f : ℕ)
    (data_frame : IsData vm f) where
  -- On a laid out memory with a coherent TLB: a value of at most a page is put at an address whose
  -- page the TLB holds and the tables map to a frame that is neither
  -- the directory nor a page table, with room for it behind four times the offset, and got back.
  -- Where the two buffers lie outside of the frame both calls end well, and byte `k` of the second
  -- buffer is byte `k` of the first before the calls.
  pub get_value-put_value :
      (va size val dst : ℕ)
      → va < 2 ^ 32
      → tlb_hits vm va ≡ true
      → entry_of vm va ≡ frame_address vm f
      → 0 < size
      → 4 * offset_of va + size ≤ 4096
      → (val + size ≤ frame_address vm f) ⊎ (frame_address vm f + 4096 ≤ val)
      → (dst + size ≤ frame_address vm f) ⊎ (frame_address vm f + 4096 ≤ dst)
      → (vm1 : Vm) × (vm2 : Vm) × (put_value host vm va val size ≡ ok vm1)
        × (get_value host vm1 va dst size ≡ ok vm2)
        × ((k : ℕ) → k < size → vm2.mem (dst + k) ≡ vm.mem (val + k))
  get_value-put_value va size val dst hva hit entry lo room _ _ =
      let there = (c va hva hit).0 in
      let (tlb, miss, total, c1, keeps, put) =
        put_value_one host vm va size hva hit (omega (arith, s.ready, s.directory)) c lo
          (omega arith) val in
      let m : Mem = memcpy vm.mem (physical vm va) val size in
      let only : ChangesOnly vm f m = λ x o.
        memcpy-outside vm.mem (physical vm va) val size x
          (elim o [ inl l ↦ inl (omega arith) | inr r ↦ inr (omega arith) ]) in
      let vm1 : Vm = record (with_tlb vm tlb miss total) { mem = m } in
      let kept = entry_of-rewrite vm s f data_frame m only va hva there in
      let c2 : IsCoherent vm1 = (λ va' h hit.
        let k = c1 va' h hit in
        let j = entry_of-rewrite vm s f data_frame m only va' h k.0 in
        (λ z. k.0 (sym j.0 ∙ z), k.1 ∙ sym j.1)) in
      let (tlb', miss', total', c3, keeps', got) =
        get_value_one host vm1 va size hva (keeps va hit) (omega (arith, s.ready, s.directory)) c2
          lo (omega arith) dst in
      (
        vm1,
        record (with_tlb vm1 tlb' miss' total') { mem = memcpy m dst (physical vm1 va) size },
        put,
        got,
        λ k h.
            memcpy-inside m dst (physical vm1 va) size k h
            ∙ ap (λ p. m (p + 4 * offset_of va + k)) kept.1
            ∙ memcpy-inside vm.mem (physical vm va) val size k h,
      )
