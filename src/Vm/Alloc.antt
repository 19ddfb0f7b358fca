-- ===== src/Vm/Alloc.antt =====
-- `set_physical_mem`, `t_malloc` and `t_free` of project3/code/my_vm.c. The mutex is held during
-- each of the two calls, so that they run one after the other.
pub mod Mapped
pub mod Malloc
pub mod Start
pub mod Free
pub mod OnePage
use cs.Prelude.{
  ℕ, zero, suc, ◌+◌, ◌-◌, ◌*◌, ◌/◌, ◌%◌, ◌^◌, ltb, ◌==◌, if◌then◌else◌, is_zero, Outcome, ok, exits,
  fault, ◌>>=◌,
}
use cs.Bitmap.{Bitmap, set_bit_at_index, free_bit_at_index, get_bit_at_index}
use cs.Memory.{Mem, store_word, memset}
use cs.Vm.State.{
  Vm, Host, TlbEntry, minus_one, page_of, offset_of, pgsize, memsize, total_virtual_pages,
  total_physical_pages, tlb_entries, pages_needed,
}
use cs.Vm.Pages.{get_next_avail, get_next_avail_p}
use cs.Vm.Tables.{translate, page_map, free_tlb}

-- `*ptr = NULL; ptr++` over `n` entries.
unfoldable pub clear_directory : Mem → ℕ → ℕ → Mem
clear_directory m p zero = m
clear_directory m p (suc n) = clear_directory (store_word m p 0) (p + 4) n

-- `VPN = -1` in the entries; the other fields stay as `malloc` left them.
unfoldable pub clear_tlb : (ℕ → TlbEntry) → ℕ → TlbEntry
clear_tlb fresh i = let e = fresh i in if ltb i tlb_entries then record e { vpn = minus_one } else e

abbrev pub empty_bitmap : ℕ → Bitmap
empty_bitmap pages = record { bytes = λ _. 0; size = pages / 8 }

abbrev pub num_pde : ℕ
num_pde = 2 ^ 10

abbrev pub num_pages_for_directory : ℕ
num_pages_for_directory = (num_pde * 4 + pgsize - 1) / pgsize

-- `set_bit_at_index(physicalPageTracker, i)` for `n` pages from `i`.
unfoldable pub set_pages : Bitmap → ℕ → ℕ → Outcome Bitmap
set_pages bm i zero = ok bm
set_pages bm i (suc n) = set_bit_at_index bm i >>= λ bm'. set_pages bm' (i + 1) n

-- The state up to the first call of `get_next_avail_p`.
unfoldable pub blank_vm : Host → Vm → Bitmap → Vm
blank_vm host vm frames = record vm {
  mem = clear_directory (memset vm.mem host.physical_block 0 memsize) host.physical_block num_pde;
  physical_memory = host.physical_block;
  page_directory = host.physical_block;
  virtual_pages = empty_bitmap total_virtual_pages;
  physical_pages = frames;
}

-- A `malloc` that gives NULL is followed by a write through it.
unfoldable pub set_physical_mem : Host → Vm → Outcome Vm
set_physical_mem host vm = if host.physical_block == 0 then fault else (do
  directory ← set_pages (empty_bitmap total_physical_pages) 0 num_pages_for_directory
  frames ← set_bit_at_index directory 0
  (table, vm') ← get_next_avail_p (blank_vm host vm frames)
  pages ← set_bit_at_index vm'.virtual_pages 0
  ok (record vm' {
    mem = store_word vm'.mem vm'.page_directory table;
    tlb_store = clear_tlb host.fresh_tlb;
    tlb_miss = 0;
    tlb_total = 0;
    virtual_pages = pages;
  }))

-- The loop of `t_malloc`, for `n` pages from the virtual page `vpn`.
unfoldable pub map_pages : Vm → ℕ → ℕ → Outcome Vm
map_pages vm vpn zero = ok vm
map_pages vm vpn (suc n) = do
  (frame, vm') ← get_next_avail_p vm
  let cleared = record vm' { mem = memset vm'.mem frame 0 pgsize }
  vm'' ← page_map cleared (vpn * pgsize % 2 ^ 32) frame
  map_pages vm'' (vpn + 1) n

unfoldable pub t_malloc : Host → Vm → ℕ → Outcome (ℕ × Vm)
t_malloc host vm num_bytes = do
  vm' ← if vm.physical_memory == 0 then set_physical_mem host vm else ok vm
  let pages = (num_bytes + pgsize - 1) % 2 ^ 32 / pgsize
  (vpn, vm'') ← get_next_avail vm' pages
  vm''' ← map_pages vm'' vpn pages
  ok (vpn * 4096 % 2 ^ 32, vm''')

-- "Freeing already freed page": `exit(1)`.
unfoldable pub release_bit : Bitmap → ℕ → Outcome Bitmap
release_bit bm i =
    get_bit_at_index bm i >>= λ b. if is_zero b then exits 1 else free_bit_at_index bm i

-- One round of the loop of `t_free`, for the virtual page `vpn` and the offset of the argument.
unfoldable pub free_page : Host → Vm → ℕ → ℕ → Outcome Vm
free_page host vm vpn offset = do
  let va = (vpn * pgsize + offset) % 2 ^ 32
  (physical, vm') ← translate host vm va
  let frame = physical + 2 ^ 34 - 4 * offset
  let physical_page = (frame - vm'.physical_memory) % 2 ^ 32 / pgsize
  pages ← release_bit vm'.virtual_pages (page_of va)
  frames ← release_bit vm'.physical_pages physical_page
  let freed = record vm' {
    mem = memset vm'.mem physical 0 pgsize;
    virtual_pages = pages;
    physical_pages = frames;
  }
  ok (free_tlb freed (page_of va))

unfoldable pub free_pages : Host → Vm → ℕ → ℕ → ℕ → Outcome Vm
free_pages host vm vpn offset zero = ok vm
free_pages host vm vpn offset (suc n) =
    free_page host vm vpn offset >>= λ vm'. free_pages host vm' (vpn + 1) offset n

unfoldable pub t_free : Host → Vm → ℕ → ℕ → Outcome Vm
t_free host vm va size = pages_needed size >>= λ n. free_pages host vm (page_of va) (offset_of va) n
