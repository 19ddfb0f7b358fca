-- ===== src/Vm/Session/Steps.antt =====
-- What holds in every state that is reached by calls.
use cs.Prelude.{ℕ, ◌+◌, ◌*◌, ◌≤◌, ◌<◌, ◌≡◌, refl, sym, ◌∙◌, ◌≢◌, ◌⊎◌, true, arith, ok, ok-transport}
use cs.Bitmap.View.{bit}
use cs.Memory.{memcpy}
use cs.Memory.Blocks.{memcpy-outside}
use cs.Vm.State.{total_physical_pages, Vm, Host, memsize, page_of, offset_of}
use cs.Vm.Tables.{directory_word, tlb_hits}
use cs.Vm.Tables.Layout.{IsData, frame_address, entry_of}
use cs.Vm.Tables.Cache.{with_tlb, same_entry}
use cs.Vm.Tables.Frames.{ChangesOnly}
use cs.Vm.Tables.Kept.{rewrite-Kept, outside-Kept}
use cs.Vm.Alloc.{t_malloc, t_free}
use cs.Vm.Alloc.Start.{IsReady}
use cs.Vm.Alloc.OnePage.{no_page, no_frame, allocated, t_malloc-Allocates}
use cs.Vm.Alloc.Free.{t_free_page}
use cs.Vm.Access.{put_value, get_value}
use cs.Vm.Access.RoundTrip.{physical, put_value_one, get_value_one}
use cs.Vm.Session.{Holds, Step, malloc, free, put, get}
use cs.Vm.Session.Owned.{IsOwned, Kept-IsOwned, freed-IsOwned, allocated-IsOwned}

pub IsReady-IsOwned : (vm : Vm) → IsReady vm → IsOwned vm
IsReady-IsOwned vm r = record {
  laid_out = r.laid_out;
  coherent = r.coherent;
  pages_whole = r.pages_whole;
  pages_size = r.pages_size;
  zero_used = ground (arith, r.page_zero 0);
  has_frame = λ p lo hi used. absurd (ground (arith, r.page_zero p));
  distinct = λ p q lo hi lo' hi' used used' ne. absurd (ground (arith, r.page_zero p));
}

-- The frame of an address that is held.
pub record Target (vm : Vm) (va f : ℕ) : Type 0 where
  pub in_range : f < total_physical_pages
  pub used : bit vm.physical_pages f ≡ 1
  pub dat : IsData vm f
  pub there : directory_word vm va ≢ 0
  pub entry : entry_of vm va ≡ frame_address vm f

pub target : (vm : Vm) (va : ℕ) → IsOwned vm → Holds vm va → (f : ℕ) × Target vm va f
target vm va o h =
    let (f, lt, used, dat, there, e) =
      o.has_frame (page_of va) h.behind_zero (omega (arith, h.small)) h.used in
    let same = same_entry vm va (page_of va * 4096) (omega arith) in
    (
      f,
      record {
        in_range = lt;
        used = used;
        dat = dat;
        there = λ z. there (sym same.0 ∙ z);
        entry = same.1 ∙ e;
      },
    )

module _ (host : Host) (vm : Vm) (o : IsOwned vm) (va size : ℕ) (h : Holds vm va)
    (hit : tlb_hits vm va ≡ true) (lo : 0 < size) where
  -- A put changes the frame of the page, and no other byte.
  pub put_held :
      (val f : ℕ)
      → Target vm va f
      → 4 * offset_of va + size ≤ 4096
      → (vm' : Vm) × (put_value host vm va val size ≡ ok vm')
        × IsOwned vm'
        × ChangesOnly vm f vm'.mem
  put_held val f t room =
      let (tlb, miss, total, c, keeps, run) =
        put_value_one host vm va size h.small hit
          (omega (arith, o.laid_out.ready, o.laid_out.directory)) o.coherent lo (omega arith) val in
      let m = memcpy vm.mem (physical vm va) val size in
      let only : ChangesOnly vm f m =
        λ x out. memcpy-outside vm.mem (physical vm va) val size x (omega (arith, t.entry)) in
      let vm' : Vm = record (with_tlb vm tlb miss total) { mem = m } in
      (
        vm',
        run,
        Kept-IsOwned vm vm' (rewrite-Kept vm o.laid_out tlb miss total f m c t.dat only) refl refl
            o,
        only,
      )

  -- A get to a buffer outside of the block.
  pub get_held :
      (dst f : ℕ)
      → Target vm va f
      → size ≤ 4096
      → (dst + size ≤ vm.physical_memory) ⊎ (vm.physical_memory + memsize ≤ dst)
      → (vm' : Vm) × (get_value host vm va dst size ≡ ok vm') × IsOwned vm'
  get_held dst f t small out =
      let (tlb, miss, total, c, keeps, run) =
        get_value_one host vm va size h.small hit
          (omega (arith, o.laid_out.ready, o.laid_out.directory)) o.coherent lo small dst in
      let m = memcpy vm.mem dst (physical vm va) size in
      let vm' : Vm = record (with_tlb vm tlb miss total) { mem = m } in
      (
        vm',
        run,
        Kept-IsOwned vm vm'
            (outside-Kept vm o.laid_out tlb miss total m c
              (λ x l r. memcpy-outside vm.mem dst (physical vm va) size x (omega (arith, out))))
            refl refl o,
      )

  -- A free of the page.
  pub free_held :
      (f : ℕ)
      → Target vm va f
      → offset_of va ≡ 0
      → size ≤ 4096
      → (vm' : Vm) × (t_free host vm va size ≡ ok vm') × IsOwned vm'
  free_held f t aligned small =
      let (vm', run, pages, frames, zeros, dropped, there, entry, kept) =
        t_free_page host vm o.laid_out o.coherent o.pages_whole o.pages_size va size h.small lo
          small f t.dat aligned hit t.entry t.in_range h.used t.used in
      let start : page_of va * 4096 ≡ va = omega arith in
      (
        vm',
        run,
        freed-IsOwned vm vm' (page_of va) f kept h.behind_zero (omega (arith, h.small)) h.used
            (rw start t.entry) pages frames o,
      )

malloc-IsOwned :
    (host : Host) (vm vm' : Vm) (num_bytes va : ℕ)
    → IsOwned vm
    → 0 < num_bytes
    → num_bytes ≤ 4096
    → t_malloc host vm num_bytes ≡ ok (va, vm')
    → IsOwned vm'
malloc-IsOwned host vm vm' num_bytes va o lo hi run =
    elim (t_malloc-Allocates host vm num_bytes o.laid_out o.coherent o.pages_whole o.pages_size lo
      hi) [
        | no_page all e ↦ cc (sym e ∙ run)
        | no_frame _ _ _ _ _ e ↦ cc (sym e ∙ run)
        | allocated p vm1 hp clear below filled m _ e ↦
            ok-transport (λ (r : ℕ × Vm). IsOwned r.1) e run
              (allocated-IsOwned vm vm1 p hp clear filled m o)
      ]

-- A call that returns keeps every page with a frame of its own.
pub Step-IsOwned : (host : Host) (vm vm' : Vm) → Step host vm vm' → IsOwned vm → IsOwned vm'
Step-IsOwned host vm vm' (malloc num_bytes va lo hi run) o =
    malloc-IsOwned host vm vm' num_bytes va o lo hi run
Step-IsOwned host vm vm' (free va size h hit aligned lo hi run) o =
    let (f, t) = target vm va o h in
    let (vm1, e, o1) = free_held host vm o va size h hit lo f t aligned hi in
    ok-transport IsOwned e run o1
Step-IsOwned host vm vm' (put va val size h hit lo room out run) o =
    let (f, t) = target vm va o h in
    let (vm1, e, o1, only) = put_held host vm o va size h hit lo val f t room in
    ok-transport IsOwned e run o1
Step-IsOwned host vm vm' (get va dst size h hit lo hi out run) o =
    let (f, t) = target vm va o h in
    let (vm1, e, o1) = get_held host vm o va size h hit lo dst f t hi out in
    ok-transport IsOwned e run o1
