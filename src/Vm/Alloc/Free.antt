-- ===== src/Vm/Alloc/Free.antt =====
-- `t_free` on one page.
use cs.Prelude.{
  ℕ, ◌+◌, ◌-◌, ◌*◌, ◌/◌, ◌%◌, ◌^◌, ◌≤◌, ◌<◌, ◌≡◌, sym, ◌∙◌, ◌≢◌, inl, inr, true, false, arith, ok,
  exits,
}
use cs.Bitmap.{Bitmap}
use cs.Bitmap.View.{bit, IsBytes, Marks, free_bit-Marks, get_bit_lem}
use cs.Memory.{Mem, memset}
use cs.Memory.Blocks.{memset-inside, memset-outside}
use cs.Vm.State.{
  Vm, Host, page_of, offset_of, pages_needed, total_physical_pages, total_virtual_pages,
}
use cs.Vm.Tables.{directory_word, free_tlb, tlb_hits}
use cs.Vm.Tables.Layout.{IsLaidOut, frame_address, entry_of}
use cs.Vm.Tables.Frames.{ChangesOnly}
use cs.Vm.Tables.Cache.{IsCoherent, with_tlb, translated, translate-Translated, translate_ends}
use cs.Vm.Tables.Layout.{IsData}
use cs.Vm.Tables.Kept.{Kept, rewrite-Kept, released-Kept, free_tlb-Kept}
use cs.Vm.Tables.Data.{entry_of-rewrite}
use cs.Vm.Alloc.{release_bit, free_page, free_pages, t_free}

pages_needed_one : (size : ℕ) → 0 < size → size ≤ 4096 → pages_needed size ≡ ok 1
unfolding pages_needed
pages_needed_one size lo hi = ground arith

module _ (bm : Bitmap) (i : ℕ) (w : IsBytes bm) (h : i < 8 * bm.size) where
  release_used : bit bm i ≡ 1 → (bm' : Bitmap) × (release_bit bm i ≡ ok bm') × Marks 0 bm i bm'
  unfolding release_bit
  release_used e =
      let (bm', done, m) = free_bit-Marks bm i w h in
      (bm', rw (get_bit_lem bm i w h) (ground (arith, done)), m)

  release_free : bit bm i ≡ 0 → release_bit bm i ≡ exits 1
  unfolding release_bit
  release_free e = rw (get_bit_lem bm i w h, e)

module _ (host : Host) (vm : Vm) (s : IsLaidOut vm) (c : IsCoherent vm)
    (w : IsBytes vm.virtual_pages) (h : vm.virtual_pages.size ≡ total_virtual_pages / 8)
    (va size : ℕ) (hva : va < 2 ^ 32) (lo : 0 < size) (hi : size ≤ 4096) where
  -- On a laid out memory with a coherent TLB and a whole bitmap of virtual pages, and whatever
  -- `check_TLB` leaves when it finds nothing: a `t_free` of one to 4096 bytes in a page that is not
  -- in use ends in `exit(1)`.
  pub t_free_twice : bit vm.virtual_pages (page_of va) ≡ 0 → t_free host vm va size ≡ exits 1
  unfolding t_free free_pages free_page
  t_free_twice free =
      let z : (page_of va * 4096 + offset_of va) % 2 ^ 32 ≡ va = omega arith in
      elim (translate_ends host vm va hva (omega (arith, s.ready, s.directory))) [
        | inl e ↦ rw (pages_needed_one size lo hi, z, e)
        | inr (pa, tlb, miss, total, e) ↦ rw (
          pages_needed_one size lo hi,
          z,
          e,
          release_free vm.virtual_pages (page_of va) w (omega (arith, h)) free,
        )
      ]

  -- On a laid out memory with a coherent TLB and a whole bitmap of virtual pages: a `t_free` of one
  -- to 4096 bytes at the start of a page in use that the TLB holds, and that is mapped to a frame
  -- in use, neither the directory nor a page table. The
  -- call ends well, the page and the frame are free again and no other page or frame, the frame is
  -- cleared, and the TLB no longer holds the page. All entries in the page tables stay, the memory
  -- stays laid out and the TLB coherent.
  pub t_free_page :
      (f : ℕ)
      → IsData vm f
      → offset_of va ≡ 0
      → tlb_hits vm va ≡ true
      → entry_of vm va ≡ frame_address vm f
      → f < total_physical_pages
      → bit vm.virtual_pages (page_of va) ≡ 1
      → bit vm.physical_pages f ≡ 1
      → (vm' : Vm) × (t_free host vm va size ≡ ok vm')
        × Marks 0 vm.virtual_pages (page_of va) vm'.virtual_pages
        × Marks 0 vm.physical_pages f vm'.physical_pages
        × ((x : ℕ) → frame_address vm f ≤ x → x < frame_address vm f + 4096 → vm'.mem x ≡ 0)
        × (tlb_hits vm' va ≡ false)
        × (directory_word vm' va ≢ 0)
        × (entry_of vm' va ≡ frame_address vm f)
        × Kept vm vm'
  unfolding t_free free_pages free_page free_tlb
  t_free_page f data_frame aligned hit entry hf used used' =
      let there = (c va hva hit).0 in
      let (pages, e1, m1) = release_used vm.virtual_pages (page_of va) w (omega (arith, h)) used in
      let (frames, e2, m2) =
        release_used vm.physical_pages f s.frames_whole (omega (arith, s.frames_size)) used' in
      let z : (page_of va * 4096 + offset_of va) % 2 ^ 32 ≡ va = omega arith in
      let start : ℕ = entry_of vm va + 4 * offset_of va in
      let page : (start + 2 ^ 34 - 4 * offset_of va - vm.physical_memory) % 2 ^ 32 / 4096 ≡ f =
        omega (arith, s.room) in
      let m : Mem = memset vm.mem start 0 4096 in
      let only : ChangesOnly vm f m = λ x o.
        memset-outside vm.mem start 0 4096 x
          (elim o [ inl l ↦ inl (omega arith) | inr r ↦ inr (omega arith) ]) in
      let kept = entry_of-rewrite vm s f data_frame m only va hva there in
      elim (translate-Translated host vm va hva (omega (arith, s.ready, s.directory)) hit c) [
        | translated tlb miss total _ c1 keeps e ↦
            (let done : Vm =
                free_tlb
                  (record (with_tlb vm tlb miss total) {
                    mem = m;
                    virtual_pages = pages;
                    physical_pages = frames;
                  })
                  (page_of va) in
              (
                done,
                rw (pages_needed_one size lo hi, z, e, e1, page, e2),
                m1,
                m2,
                λ x a b. memset-inside vm.mem start 0 4096 x (omega arith) (omega arith),
                ground arith,
                λ q. there (sym kept.0 ∙ q),
                kept.1 ∙ entry,
                free_tlb-Kept vm
                    (record (with_tlb vm tlb miss total) {
                      mem = m;
                      virtual_pages = pages;
                      physical_pages = frames;
                    })
                    (page_of va)
                    (released-Kept vm (record (with_tlb vm tlb miss total) { mem = m }) f pages
                      frames (rewrite-Kept vm s tlb miss total f m c1 data_frame only) data_frame
                      m2),
              ))
      ]
