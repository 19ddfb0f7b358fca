-- ===== src/Vm/Alloc/OnePage.antt =====
-- `t_malloc` of at most a page: every way in which it ends.
use mathlib.Core.Path.{subst}
use cs.Prelude.{
  ℕ, ◌+◌, ◌-◌, ◌*◌, ◌/◌, ◌%◌, ◌^◌, ◌≤◌, ◌<◌, ◌≡◌, true, refl, sym, ap, ◌∙◌, arith, ==_of_ne,
  Outcome, ok, exits, ◌>>=◌,
}
use cs.Bitmap.View.{bit, IsBytes}
use cs.Vm.State.{Vm, Host, total_virtual_pages}
use cs.Vm.Pages.{get_next_avail}
use cs.Vm.Pages.Runs.{Filled}
use cs.Vm.Pages.Single.{full, found, get_next_avail_single}
use cs.Vm.Tables.Layout.{IsLaidOut, IsLaidOut-rest}
use cs.Vm.Tables.{tlb_hits}
use cs.Vm.Tables.Cache.{IsCoherent}
use cs.Vm.Alloc.{map_pages, t_malloc}
use cs.Vm.Alloc.Mapped.{IsMapped}
use cs.Vm.Alloc.Malloc.{FewFrames, short, maps_page, map_page, map_pages-suc, map_page-MapsPage}

-- What `t_malloc` of one page comes to.
pub data Allocates (vm : Vm) (r : Outcome (ℕ × Vm)) : Type 0 where
  no_page :
      ((j : ℕ) → j < total_virtual_pages → bit vm.virtual_pages j ≡ 1)
      → r ≡ exits 1
      → Allocates vm r
  no_frame :
      (p : ℕ)
      → p < total_virtual_pages
      → bit vm.virtual_pages p ≡ 0
      → ((j : ℕ) → j < p → bit vm.virtual_pages j ≡ 1)
      → FewFrames vm (p * 4096)
      → r ≡ exits 1
      → Allocates vm r
  allocated :
      (p : ℕ) (vm' : Vm)
      → p < total_virtual_pages
      → bit vm.virtual_pages p ≡ 0
      → ((j : ℕ) → j < p → bit vm.virtual_pages j ≡ 1)
      → Filled vm.virtual_pages p 1 vm'.virtual_pages
      → IsMapped (record vm { virtual_pages = vm'.virtual_pages }) vm' p 1
      → tlb_hits vm' (p * 4096) ≡ true
      → r ≡ ok (p * 4096, vm')
      → Allocates vm r

one_page :
    (num_bytes : ℕ) → 0 < num_bytes → num_bytes ≤ 4096 → (num_bytes + 4096 - 1) % 2 ^ 32 / 4096 ≡ 1
one_page num_bytes lo hi = omega arith

one_round :
    (vm : Vm) (p : ℕ) {r : Outcome Vm}
    → map_page vm p ≡ r
    → map_pages vm p 1 ≡ (r >>= λ vm'. ok vm')
unfolding map_pages
one_round vm p e = map_pages-suc vm p 0 ∙ ap (λ a. a >>= λ vm'. ok vm') e

t_malloc_steps :
    (host : Host) (vm : Vm) (num_bytes : ℕ) {r : Outcome (ℕ × Vm)}
    → 0 < vm.physical_memory
    → 0 < num_bytes
    → num_bytes ≤ 4096
    → (get_next_avail vm 1 >>= λ q. map_pages q.1 q.0 1 >>= λ vm'. ok (q.0 * 4096 % 2 ^ 32, vm'))
      ≡ r
    → t_malloc host vm num_bytes ≡ r
unfolding t_malloc
t_malloc_steps host vm num_bytes ready lo hi e =
    rw (==_of_ne vm.physical_memory 0 (omega arith), one_page num_bytes lo hi) e

-- On a laid out memory with a coherent TLB and a whole bitmap of virtual pages, `t_malloc` of one
-- to 4096 bytes exits where every page is in use, or where, for the first free page, no frame is
-- free, or one at most and the page has no table; or else it returns the address of the first free
-- page, which alone is now in use, is mapped to a fresh frame and is in the TLB. There is no fault.
pub t_malloc-Allocates :
    (host : Host) (vm : Vm) (num_bytes : ℕ)
    → IsLaidOut vm
    → IsCoherent vm
    → IsBytes vm.virtual_pages
    → vm.virtual_pages.size ≡ total_virtual_pages / 8
    → 0 < num_bytes
    → num_bytes ≤ 4096
    → Allocates vm (t_malloc host vm num_bytes)
t_malloc-Allocates host vm num_bytes s c w h lo hi =
    elim (get_next_avail_single vm w (omega (arith, h))) [
      | full all e ↦
          no_page (λ j lt. all j (omega arith) lt)
            (t_malloc_steps host vm num_bytes s.ready lo hi (rw e refl))
      | found p bm _ lt free below filled e ↦
          (let q : Vm = record vm { virtual_pages = bm } in
            let sq = IsLaidOut-rest vm bm vm.tlb_store vm.tlb_miss vm.tlb_total s in
            elim (map_page-MapsPage q sq c p lt) [
              | short few e' ↦
                  no_frame p lt free (λ j l. below j (omega arith) l) few
                    (t_malloc_steps host vm num_bytes s.ready lo hi (rw (e, one_round q p e') refl))
              | maps_page vm' m hit e' ↦
                  (let address : p * 4096 % 2 ^ 32 ≡ p * 4096 = omega arith in
                    allocated p vm' lt free (λ j l. below j (omega arith) l)
                      (subst (λ b. Filled vm.virtual_pages p 1 b) (sym m.same_pages) filled)
                      (subst (λ b. IsMapped (record vm { virtual_pages = b }) vm' p 1)
                        (sym m.same_pages) m)
                      hit
                      (t_malloc_steps host vm num_bytes s.ready lo hi
                        (rw (e, one_round q p e') (ap (λ a. ok (a, vm')) address))))
            ])
    ]
