-- ===== src/Vm/Session/Isolation.antt =====
-- What every reached state promises to the program: its pages do not share frames, its calls
-- return, and a write to one page leaves the others.
use cs.Prelude.{
  ℕ, ◌+◌, ◌*◌, ◌^◌, ◌≤◌, ◌<◌, ◌≡◌, sym, ap, ◌∙◌, ◌≢◌, ◌⊎◌, true, arith, ok, ok-transport,
}
use cs.Vm.State.{Vm, Host, memsize, page_of, offset_of}
use cs.Vm.Tables.Layout.{frame_address, entry_of}
use cs.Vm.Tables.Cache.{same_entry}
use cs.Vm.Tables.{tlb_hits}
use cs.Vm.Alloc.{t_free}
use cs.Vm.Alloc.Start.{set_physical_mem-IsReady}
use cs.Vm.Access.{put_value, get_value}
use cs.Vm.Session.{Holds, Reached, started, stepped}
use cs.Vm.Session.Owned.{IsOwned}
use cs.Vm.Session.Steps.{
  Target, target, put_held, get_held, free_held, IsReady-IsOwned, Step-IsOwned,
}

-- Where the block of memory lies below the end of the address space, this holds in every state that
-- `set_physical_mem` and calls that return lead to, each of 1 to 4096 bytes: the memory is laid
-- out, the TLB is coherent, and every page that was handed out is mapped to a frame of data in use
-- that is the frame of no other page. The calls are `t_malloc`, and, on a page that was handed out
-- and that the TLB holds, `t_free` at its start, `put_value` of what fits behind four times the
-- offset from a buffer outside of the block, and `get_value` to a buffer outside of the block.
pub Reached-IsOwned :
    (host : Host) (blank vm : Vm)
    → 0 < host.physical_block
    → host.physical_block + memsize ≤ 2 ^ 32
    → Reached host blank vm
    → IsOwned vm
Reached-IsOwned host blank vm ready room (started _ run) =
    let (vm', e, r) = set_physical_mem-IsReady host blank ready room in
    ok-transport IsOwned e run (IsReady-IsOwned vm' r)
Reached-IsOwned host blank vm ready room (stepped before _ reached step) =
    Step-IsOwned host before vm step (Reached-IsOwned host blank before ready room reached)

-- Two addresses that are held have different frames where their pages differ.
targets_apart :
    (vm : Vm) (va va' f g : ℕ)
    → IsOwned vm
    → Holds vm va
    → Holds vm va'
    → Target vm va f
    → Target vm va' g
    → page_of va ≢ page_of va'
    → f ≢ g
targets_apart vm va va' f g o h h' t t' ne z =
    let e = same_entry vm va (page_of va * 4096) (omega arith) in
    let e' = same_entry vm va' (page_of va' * 4096) (omega arith) in
    o.distinct (page_of va) (page_of va') h.behind_zero (omega (arith, h.small)) h'.behind_zero
      (omega (arith, h'.small)) h.used h'.used ne
      (sym e.1 ∙ t.entry ∙ ap (frame_address vm) z ∙ sym t'.entry ∙ e'.1)

-- In a reached state, under the conditions of the invariant: a `put_value` of at most what fits
-- behind four times the offset to an address whose page was handed out and is in the TLB returns,
-- and leaves every byte of the frame of every other page that was handed out.
pub put_value-isolated :
    (host : Host) (blank vm : Vm) (va va' val size : ℕ)
    → 0 < host.physical_block
    → host.physical_block + memsize ≤ 2 ^ 32
    → Reached host blank vm
    → Holds vm va
    → Holds vm va'
    → tlb_hits vm va ≡ true
    → page_of va ≢ page_of va'
    → 0 < size
    → 4 * offset_of va + size ≤ 4096
    → (vm' : Vm) × (put_value host vm va val size ≡ ok vm')
      × ((x : ℕ) → x < 4096 → vm'.mem (entry_of vm va' + x) ≡ vm.mem (entry_of vm va' + x))
put_value-isolated host blank vm va va' val size ready room reached h h' hit ne lo fits =
    let o = Reached-IsOwned host blank vm ready room reached in
    let (f, t) = target vm va o h in
    let (g, t') = target vm va' o h' in
    let (vm', run, o', only) = put_held host vm o va size h hit lo val f t fits in
    let apart = targets_apart vm va va' f g o h h' t t' ne in
    (
      vm',
      run,
      λ x lt.
          only (entry_of vm va' + x)
            (sides f g (entry_of vm va') x vm.physical_memory apart t'.entry lt),
    )
  where
    sides :
        (f g e x base : ℕ)
        → f ≢ g
        → e ≡ g * 4096 + base
        → x < 4096
        → (e + x < f * 4096 + base) ⊎ (f * 4096 + base + 4096 ≤ e + x)
    sides f g e x base ne eq lt = omega arith

-- In a reached state, under the conditions of the invariant, no call of 1 to 4096 bytes at the start
-- of a page that was handed out and is in the TLB exits or faults: `put_value`, `get_value` to a
-- buffer outside of the block, and `t_free` return.
pub held_calls_return :
    (host : Host) (blank vm : Vm) (va val dst size : ℕ)
    → 0 < host.physical_block
    → host.physical_block + memsize ≤ 2 ^ 32
    → Reached host blank vm
    → Holds vm va
    → tlb_hits vm va ≡ true
    → offset_of va ≡ 0
    → 0 < size
    → size ≤ 4096
    → (dst + size ≤ vm.physical_memory) ⊎ (vm.physical_memory + memsize ≤ dst)
    → ((vm' : Vm) × (put_value host vm va val size ≡ ok vm'))
      × ((vm' : Vm) × (get_value host vm va dst size ≡ ok vm'))
      × ((vm' : Vm) × (t_free host vm va size ≡ ok vm'))
held_calls_return host blank vm va val dst size ready room reached h hit aligned lo hi out =
    let o = Reached-IsOwned host blank vm ready room reached in
    let (f, t) = target vm va o h in
    let (vm1, e1, _, _) = put_held host vm o va size h hit lo val f t (omega arith) in
    let (vm2, e2, _) = get_held host vm o va size h hit lo dst f t hi out in
    let (vm3, e3, _) = free_held host vm o va size h hit lo f t aligned hi in
    ((vm1, e1), (vm2, e2), (vm3, e3))
