-- ===== src/Vm/Alloc/Malloc.antt =====
-- What `t_malloc` returns.
use cs.Prelude.{
  true, false, ==_iff, Bool-cases, ◌⊎◌, >>=_assoc, ℕ, zero, suc, ◌+◌, ◌-◌, ◌*◌, ◌/◌, ◌%◌, ◌^◌, ◌≤◌,
  ◌<◌, ◌≡◌, refl, sym, ◌∙◌, ◌≢◌, inl, inr, arith, ◌==◌, if◌then◌else◌, ==_of_ne, Outcome, ok, exits,
  ◌>>=◌, >>=-eq-ok, ok-transport,
}
use cs.Bitmap.{Bitmap}
use cs.Bitmap.View.{bit, IsBytes}
use cs.Memory.{memset}
use cs.Memory.Blocks.{memset-outside}
use cs.Vm.State.{Vm, Host, pgsize, total_physical_pages, total_virtual_pages, page_of}
use cs.Vm.Pages.{get_next_avail_p, get_next_avail}
use cs.Vm.Pages.Runs.{Filled}
use cs.Vm.Pages.FirstFit.{IsRun, get_next_avail-IsRun}
use cs.Vm.Pages.Single.{full, found, get_next_avail_p-Search}
use cs.Vm.Tables.{directory_word, page_map, tlb_hits}
use mathlib.Core.Path.{subst}
use cs.Vm.Tables.Layout.{IsLaidOut-rest, IsLaidOut, frame_address}
use cs.Vm.Tables.Mapping.{AllFramesUsed, Mapped, mapped, no_frame, page_map-Mapped}
use cs.Vm.Tables.Frames.{
  with_frame-IsData, with_frame-KeepsData, with_frame, with_frame-IsLaidOut, entry_of-with_frame,
  ChangesOnly,
}
use cs.Vm.Tables.Cache.{IsCoherent, mapped-IsCoherent}
use cs.Vm.Alloc.{set_physical_mem, map_pages, t_malloc}
use cs.Vm.Alloc.Mapped.{IsMapped, IsMapped-none, IsMapped-trans}

-- One round of the loop of `t_malloc`.
abbrev pub map_page : Vm → ℕ → Outcome Vm
map_page vm vpn = get_next_avail_p vm >>= λ r.
    page_map (record (r.1) { mem = memset (r.1).mem r.0 0 pgsize }) (vpn * pgsize % 2 ^ 32) r.0

pub map_pages-suc :
    (vm : Vm) (vpn n : ℕ)
    → map_pages vm vpn (suc n) ≡ (map_page vm vpn >>= λ vm'. map_pages vm' (vpn + 1) n)
unfolding map_pages
map_pages-suc vm vpn n = sym (>>=_assoc (get_next_avail_p vm) _ _)

-- No frame is free, or one at most and the page has no table yet.
abbrev pub FewFrames : Vm → ℕ → Type 0
FewFrames vm va =
    AllFramesUsed vm
    ⊎ ((directory_word vm va ≡ 0)
        × (p : ℕ) × ((f : ℕ) → f < total_physical_pages → bit vm.physical_pages f ≡ 0 → f ≡ p))

-- A page is mapped, or the program exits for want of frames.
pub data MapsPage (vm : Vm) (vpn : ℕ) (r : Outcome Vm) : Type 0 where
  short : FewFrames vm (vpn * 4096) → r ≡ exits 1 → MapsPage vm vpn r
  maps_page :
      (vm' : Vm)
      → IsMapped vm vm' vpn 1
      → tlb_hits vm' (vpn * 4096) ≡ true
      → r ≡ ok vm'
      → MapsPage vm vpn r

-- A run of pages is mapped, or the program exits.
pub data Maps (vm : Vm) (vpn n : ℕ) (r : Outcome Vm) : Type 0 where
  out_of_frames : r ≡ exits 1 → Maps vm vpn n r
  maps : (vm' : Vm) → IsMapped vm vm' vpn n → r ≡ ok vm' → Maps vm vpn n r

module _ (vm : Vm) (s : IsLaidOut vm) (c : IsCoherent vm) (vpn : ℕ) (small : vpn < 1048576) where
  module _ (p : ℕ) (frames : Bitmap) (hi : p < total_physical_pages)
      (free : bit vm.physical_pages p ≡ 0) (filled : Filled vm.physical_pages p 1 frames) where
    abbrev cleared : Vm
    cleared = with_frame vm frames (memset vm.mem (frame_address vm p) 0 pgsize)

    only : ChangesOnly vm p cleared.mem
    only x o = memset-outside vm.mem (frame_address vm p) 0 pgsize x o

    cleared-IsCoherent : IsCoherent cleared
    cleared-IsCoherent va h hit =
        let k = c va h hit in
        let j = entry_of-with_frame vm s p frames cleared.mem free filled only va h k.0 in
        (j.0, k.1 ∙ sym j.1)

    used_now : bit frames p ≡ 1
    used_now = ground (arith, filled.bits p)

    no_table : (va : ℕ) → va < 2 ^ 32 → directory_word cleared va ≡ 0 → directory_word vm va ≡ 0
    no_table va lt fresh = elim (Bool-cases (directory_word vm va == 0)) [
      | inl absent ↦ (==_iff (directory_word vm va) 0).0 absent
      | inr there ↦ absurd (
          (entry_of-with_frame vm s p frames cleared.mem free filled only va lt
              (unequal (directory_word vm va) 0 there)).0
            fresh)
    ]
      where
        unequal : (x y : ℕ) → (x == y) ≡ false → x ≢ y
        unequal x y e z = ground arith

    only_one :
        AllFramesUsed cleared
        → (f : ℕ) → f < total_physical_pages
        → bit vm.physical_pages f ≡ 0
        → f ≡ p
    only_one all f lt clear = elim (Bool-cases (f == p)) [
      | inl same ↦ (==_iff f p).0 same
      | inr far ↦ absurd (ground (arith, filled.bits f, all f lt, clear, far))
    ]

    map_cleared :
        (va : ℕ)
        → va ≡ vpn * 4096
        → Mapped cleared va (frame_address vm p) (page_map cleared va (frame_address vm p))
        → MapsPage vm vpn (page_map cleared va (frame_address vm p))
    map_cleared va z (no_frame fresh all e) =
        short
          (inr (
            subst (λ a. directory_word vm a ≡ 0) z (no_table va (omega arith) fresh),
            p,
            only_one all,
          ))
          e
    map_cleared va z (mapped vm' s' there entry keeps hit (tlb, pages, base) more stays e) =
        maps_page vm'
          (record {
            laid_out = s';
            coherent =
                mapped-IsCoherent cleared vm' va (frame_address vm p) cleared-IsCoherent tlb there
                  (omega arith) keeps;
            same_pages = pages;
            same_base = base;
            stays_used = λ f used. more f (ground (arith, filled.bits f));
            fresh = λ i h.
                let w : (vpn + i) * 4096 ≡ va = omega arith in
                rw w (
                  p,
                  hi,
                  free,
                  more p used_now,
                  stays p used_now (with_frame-IsData vm s p frames cleared.mem free filled only),
                  there,
                  omega arith,
                );
            keeps_data = λ g used data_frame.
                stays g (ground (arith, filled.bits g))
                  (with_frame-KeepsData vm s p frames cleared.mem free filled only g data_frame);
            distinct = λ i j hi' hj ne. absurd (ne (omega arith));
            keeps = λ va' h m o.
                let j = entry_of-with_frame vm s p frames cleared.mem free filled only va' h m in
                let ne : page_of va ≢ page_of va' = elim o [
                  | inl l ↦ omega arith
                  | inr r ↦ omega arith
                ] in
                let k = keeps va' h j.0 ne in (k.0, k.1 ∙ j.1);
          })
          (subst (λ a. tlb_hits vm' a ≡ true) z (hit.0)) e

  pub map_page-MapsPage : MapsPage vm vpn (map_page vm vpn)
  map_page-MapsPage =
      elim (get_next_avail_p-Search vm s.frames_whole (omega (arith, s.frames_size))) [
        | full all e ↦ short (inl (λ j h. all j (omega arith) h)) (rw e)
        | found p frames lo hi free below filled e ↦
            (let va : ℕ = vpn * pgsize % 2 ^ 32 in
              let s1 =
                with_frame-IsLaidOut vm s p frames (cleared p frames hi free filled).mem free filled
                  (only p frames hi free filled) in
              rw e (
                map_cleared p frames hi free filled va (omega arith) (
                  page_map-Mapped (cleared p frames hi free filled) va (frame_address vm p)
                    (omega arith) s1 (omega arith) (omega (arith, s.room)))))
      ]

-- `n` pages from `vpn` on are mapped to fresh frames, or the program exits.
pub map_pages-Maps :
    (vm : Vm) (vpn n : ℕ)
    → IsLaidOut vm
    → IsCoherent vm
    → vpn + n ≤ total_virtual_pages
    → Maps vm vpn n (map_pages vm vpn n)
unfolding map_pages
map_pages-Maps vm vpn zero s c h = maps vm (IsMapped-none vm vpn s c) refl
map_pages-Maps vm vpn (suc n) s c h = elim (map_page-MapsPage vm s c vpn (omega arith)) [
  | short _ e ↦ out_of_frames (map_pages-suc vm vpn n ∙ rw e)
  | maps_page vm1 a _ e ↦
      elim (map_pages-Maps vm1 (vpn + 1) n a.laid_out a.coherent (omega arith)) [
        | out_of_frames e' ↦ out_of_frames (map_pages-suc vm vpn n ∙ rw (e, e'))
        | maps vm2 b e' ↦
            maps vm2 (IsMapped-trans vpn n (omega arith) a b) (map_pages-suc vm vpn n ∙ rw (e, e'))
      ]
]

abbrev pub pages_of : ℕ → ℕ
pages_of num_bytes = (num_bytes + pgsize - 1) % 2 ^ 32 / pgsize

with_pages_of :
    (vm q vm' : Vm) (p n : ℕ)
    → q ≡ record vm { virtual_pages = q.virtual_pages }
    → IsRun vm.virtual_pages n p q.virtual_pages
    → IsMapped q vm' p n
    → IsRun vm.virtual_pages n p vm'.virtual_pages
      × IsMapped (record vm { virtual_pages = vm'.virtual_pages }) vm' p n
with_pages_of vm q vm' p n e run m = (
  subst (λ b. IsRun vm.virtual_pages n p b) (sym m.same_pages) run,
  subst (λ b. IsMapped (record vm { virtual_pages = b }) vm' p n) (sym m.same_pages)
      (subst (λ v. IsMapped v vm' p n) e m),
)

-- What `t_malloc` returns, where it does, on a laid out memory with a coherent TLB and a whole
-- bitmap of virtual pages: the address of a run of
-- pages that passed as free, each mapped to a fresh frame of its own, while other pages keep
-- their entries, and the memory stays laid out and the TLB coherent.
pub t_malloc-IsMapped :
    (host : Host) (vm : Vm) (num_bytes : ℕ) {a : ℕ} {vm' : Vm}
    → IsLaidOut vm
    → IsCoherent vm
    → IsBytes vm.virtual_pages
    → vm.virtual_pages.size ≡ total_virtual_pages / 8
    → t_malloc host vm num_bytes ≡ ok (a, vm')
    → (p : ℕ) × (a ≡ p * 4096)
      × IsRun vm.virtual_pages (pages_of num_bytes) p vm'.virtual_pages
      × IsMapped (record vm { virtual_pages = vm'.virtual_pages }) vm' p (pages_of num_bytes)
unfolding t_malloc
t_malloc-IsMapped host vm num_bytes {a} {vm'} s c w h e =
    let n = pages_of num_bytes in
    let start : (if vm.physical_memory == 0 then set_physical_mem host vm else ok vm) ≡ ok vm =
      rw (==_of_ne vm.physical_memory 0 (omega (arith, s.ready))) in
    let e1 = rw start at e in
    let r = >>=-eq-ok (get_next_avail vm n) _ e1 in
    let q : Vm = (r.0).1 in
    let p : ℕ = (r.0).0 in
    let g = get_next_avail-IsRun vm n w (omega arith) r.1 in
    let sq : IsLaidOut q =
      subst IsLaidOut (sym g.2)
        (IsLaidOut-rest vm q.virtual_pages vm.tlb_store vm.tlb_miss vm.tlb_total s) in
    let cq : IsCoherent q = subst IsCoherent (sym g.2) c in
    elim (map_pages-Maps q p n sq cq (omega (arith, g.1.fits))) [
      | out_of_frames stop ↦ cc (rw stop at r.2)
      | maps vm2 m done ↦
          (let both = with_pages_of vm q vm2 p n g.2 g.1 m in
            ok-transport
              (λ (x : ℕ × Vm).
                (p : ℕ) × (x.0 ≡ p * 4096)
                × IsRun vm.virtual_pages n p (x.1).virtual_pages
                × IsMapped (record vm { virtual_pages = (x.1).virtual_pages }) x.1 p n)
              refl (rw done at r.2) (p, omega (arith, g.0), both.0, both.1))
    ]
