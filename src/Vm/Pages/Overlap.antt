-- ===== src/Vm/Pages/Overlap.antt =====
-- `get_next_avail` on bitmaps with and without bytes whose last page is in use.
use cs.Prelude.{ℕ, ◌+◌, ◌*◌, ◌/◌, ◌≤◌, ◌<◌, ◌≡◌, arith, ok}
use cs.Bitmap.{Bitmap}
use cs.Bitmap.View.{bit, IsBytes}
use cs.Vm.State.{Vm, total_virtual_pages}
use cs.Vm.Pages.{get_next_avail}
use cs.Vm.Pages.FirstFit.{get_next_avail-IsRun}

module _ (vm : Vm) (w : IsBytes vm.virtual_pages)
    (h : total_virtual_pages ≤ 8 * vm.virtual_pages.size) where
  -- In a whole bitmap in which no byte has its last page in use, every page that `get_next_avail`
  -- returns was free.
  pub get_next_avail_of_clear_ends :
      (num_pages : ℕ) {p : ℕ} {vm' : Vm}
      → ((j : ℕ) → vm.virtual_pages.bytes j < 128)
      → get_next_avail vm num_pages ≡ ok (p, vm')
      → (k : ℕ) → k < num_pages
      → bit vm.virtual_pages (p + k) ≡ 0
  get_next_avail_of_clear_ends num_pages {p} clear e k hk =
      ground (arith, (get_next_avail-IsRun vm num_pages w h e).1.passes k hk, clear ((p + k) / 8))
