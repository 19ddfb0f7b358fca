-- ===== src/Vm/Access/Fresh.antt =====
-- `put_value` and `get_value` on a page that `t_malloc` just handed out.

use cs.Prelude.{ℕ, ◌+◌, ◌*◌, ◌/◌, ◌≤◌, ◌<◌, ◌≡◌, sym, ap, ◌∙◌, ◌⊎◌, true, arith, ok, ok-transport}
use cs.Bitmap.View.{IsBytes}
use cs.Vm.State.{Vm, Host, memsize, total_virtual_pages}
use cs.Vm.Tables.{tlb_hits}
use cs.Vm.Tables.Layout.{IsLaidOut, entry_of}
use cs.Vm.Tables.Cache.{IsCoherent}
use cs.Vm.Alloc.{t_malloc}
use cs.Vm.Alloc.Mapped.{IsMapped}
use cs.Vm.Alloc.OnePage.{no_page, no_frame, allocated, t_malloc-Allocates}
use cs.Vm.Access.{put_value, get_value}
use cs.Vm.Access.RoundTrip.{get_value-put_value}

-- A value that is put in the page and got back is the same.
KeepsValue : Host → ℕ × Vm → (val dst size : ℕ) → Type 0
KeepsValue host r val dst size =
    (vm1 : Vm) × (vm2 : Vm) × (put_value host r.1 r.0 val size ≡ ok vm1)
    × (get_value host vm1 r.0 dst size ≡ ok vm2)
    × ((k : ℕ) → k < size → vm2.mem (dst + k) ≡ (r.1).mem (val + k))

module _ (host : Host) (vm vm' : Vm) (p val dst size : ℕ) (hp : p < total_virtual_pages)
    (m : IsMapped vm vm' p 1) (hit : tlb_hits vm' (p * 4096) ≡ true) (lo : 0 < size)
    (hi : size ≤ 4096)
    (val_out : (val + size ≤ vm'.physical_memory) ⊎ (vm'.physical_memory + memsize ≤ val))
    (dst_out : (dst + size ≤ vm'.physical_memory) ⊎ (vm'.physical_memory + memsize ≤ dst)) where
  mapped_keeps : KeepsValue host (p * 4096, vm') val dst size
  unfolding KeepsValue
  mapped_keeps =
      let z : (p + 0) * 4096 ≡ p * 4096 = omega arith in
      let (f, hf, free, used, dat, there, e) = m.fresh 0 (omega arith) in
      get_value-put_value host vm' m.laid_out m.coherent f dat (p * 4096) size val dst (omega arith)
        hit (ap (entry_of vm') (sym z) ∙ e ∙ ap (λ b. f * 4096 + b) (sym m.same_base)) lo
        (omega arith) (omega (arith, val_out)) (omega (arith, dst_out))

-- On a laid out memory with a coherent TLB and a whole bitmap of virtual pages: where `t_malloc` of
-- one to 4096 bytes returns, a value of at most a page that is put at the address it returned, and
-- got back at once, is the same, byte for byte, and both calls end well. The two buffers lie outside
-- of the block of memory. Nothing is assumed of what `check_TLB` leaves when it finds nothing.
pub get_value-t_malloc :
    (host : Host) (vm : Vm) (num_bytes : ℕ) (r : ℕ × Vm) (val dst size : ℕ)
    → IsLaidOut vm
    → IsCoherent vm
    → IsBytes vm.virtual_pages
    → vm.virtual_pages.size ≡ total_virtual_pages / 8
    → 0 < num_bytes
    → num_bytes ≤ 4096
    → t_malloc host vm num_bytes ≡ ok r
    → 0 < size
    → size ≤ 4096
    → (val + size ≤ vm.physical_memory) ⊎ (vm.physical_memory + memsize ≤ val)
    → (dst + size ≤ vm.physical_memory) ⊎ (vm.physical_memory + memsize ≤ dst)
    → (vm1 : Vm) × (vm2 : Vm) × (put_value host r.1 r.0 val size ≡ ok vm1)
      × (get_value host vm1 r.0 dst size ≡ ok vm2)
      × ((k : ℕ) → k < size → vm2.mem (dst + k) ≡ (r.1).mem (val + k))
unfolding KeepsValue
get_value-t_malloc host vm num_bytes r val dst size s c w h lo hi run lo' hi' val_out dst_out =
    elim (t_malloc-Allocates host vm num_bytes s c w h lo hi) [
      | no_page all e ↦ cc (sym e ∙ run)
      | no_frame _ _ _ _ _ e ↦ cc (sym e ∙ run)
      | allocated p vm' hp clear below filled m hit e ↦
          ok-transport (λ (r : ℕ × Vm). KeepsValue host r val dst size) e run
            (mapped_keeps host (record vm { virtual_pages = vm'.virtual_pages }) vm' p val dst size
              hp m hit lo' hi' (omega (arith, val_out, m.same_base))
              (omega (arith, dst_out, m.same_base)))
    ]
