-- ===== src/Vm/Alloc/Start.antt =====
-- `set_physical_mem`: the memory that the other calls start from.
use cs.Prelude.{
  ℕ, zero, suc, ◌+◌, ◌*◌, ◌/◌, ◌%◌, ◌^◌, ◌≤◌, ◌<◌, ◌≡◌, refl, ◌∙◌, false, arith, ◌==◌,
  if◌then◌else◌, ==_of_ne, ok,
}
use native.Mathlib.Nat.{zero-div}
use mathlib.Core.Path.{subst}
use cs.Bitmap.{Bitmap}
use cs.Bitmap.Bits.{bit_of}
use cs.Bitmap.View.{Marks, set_bit-Marks, bit, IsBytes}
use cs.Memory.{Mem, load_word, store_word, memset}
use cs.Memory.Blocks.{memset-inside}
use cs.Vm.State.{Vm, Host, TlbEntry, pgsize, memsize, total_physical_pages, total_virtual_pages}
use cs.Vm.Pages.Runs.{Filled}
use cs.Vm.Tables.{tlb_hits}
use cs.Vm.Tables.Layout.{IsLaidOut, IsLaidOut-rest, table_at}
use cs.Vm.Tables.Growth.{with_table, with_table-IsLaidOut}
use cs.Vm.Tables.Cache.{IsCoherent}
use cs.Vm.Pages.Single.{full, found, get_next_avail_p-Search}
use cs.Vm.Alloc.{
  set_physical_mem, set_pages, empty_bitmap, blank_vm, clear_directory, clear_tlb,
  total_virtual_pages,
}

-- A block of zeros.
abbrev IsZero : Mem → ℕ → ℕ → Type 0
IsZero m p n = (x : ℕ) → p ≤ x → x < p + n → m x ≡ 0

store-IsZero : (m : Mem) (a p n : ℕ) → IsZero m p n → IsZero (store_word m a 0) p n
unfolding store_word
store-IsZero m a p n z x lo hi = ground (arith, z x lo hi)

clear_directory-IsZero : (m : Mem) (a p n k : ℕ) → IsZero m p n → IsZero (clear_directory m a k) p n
unfolding clear_directory
clear_directory-IsZero m a p n zero z = z
clear_directory-IsZero m a p n (suc k) z =
    clear_directory-IsZero (store_word m a 0) (a + 4) p n k (store-IsZero m a p n z)

load-IsZero : (m : Mem) (p n a : ℕ) → IsZero m p n → p ≤ a → a + 4 ≤ p + n → load_word m a ≡ 0
unfolding load_word
load-IsZero m p n a z lo hi = ground (arith, z a, z (a + 1), z (a + 2), z (a + 3))

bit_of-zero : (k : ℕ) → bit_of 0 k ≡ 0
unfolding bit_of
bit_of-zero k = omega (arith, zero-div (2 ^ k))

module _ (host : Host) (vm : Vm) (ready : 0 < host.physical_block)
    (room : host.physical_block + memsize ≤ 2 ^ 32) (frames : Bitmap) (whole : IsBytes frames)
    (size : frames.size ≡ total_physical_pages / 8) (used : bit frames 0 ≡ 1) where
  blank_table : (d : ℕ) → d < 1024 → table_at (blank_vm host vm frames) d ≡ 0
  unfolding blank_vm
  blank_table d h =
      load-IsZero
        (clear_directory (memset vm.mem host.physical_block 0 memsize) host.physical_block 1024)
        host.physical_block memsize (host.physical_block + 4 * d)
        (clear_directory-IsZero (memset vm.mem host.physical_block 0 memsize) host.physical_block
          host.physical_block memsize 1024
          (λ x lo hi. memset-inside vm.mem host.physical_block 0 memsize x lo hi))
        (omega arith) (omega arith)

  blank-IsLaidOut : IsLaidOut (blank_vm host vm frames)
  unfolding blank_vm
  blank-IsLaidOut = record {
    ready = ready;
    room = room;
    directory = refl;
    frames_whole = whole;
    frames_size = size;
    directory_used = used;
    tables = λ d h n. absurd (n (blank_table d h));
    apart = λ d e hd he ne nd ne'. absurd (nd (blank_table d hd));
  }

  -- No entry of the cleared TLB is for a page.
  cleared_misses :
      (va : ℕ)
      → va < 2 ^ 32
      → tlb_hits (record vm { tlb_store = clear_tlb host.fresh_tlb }) va ≡ false
  unfolding clear_tlb
  cleared_misses va h = ground arith

  -- The first table goes to the first free frame.
  first_table :
      (p : ℕ) (taken : Bitmap)
      → p < total_physical_pages
      → bit frames p ≡ 0
      → Filled frames p 1 taken
      → (pages : Bitmap) (tlb : ℕ → TlbEntry)
      → IsLaidOut (record vm {
        mem =
            store_word
              (blank_vm host vm frames).mem
              host.physical_block
              (p * pgsize + host.physical_block);
        physical_memory = host.physical_block;
        page_directory = host.physical_block;
        virtual_pages = pages;
        physical_pages = taken;
        tlb_store = tlb;
        tlb_miss = 0;
        tlb_total = 0;
      })
  unfolding blank_vm
  first_table p taken hp free filled pages tlb =
      let b : Vm = blank_vm host vm frames in
      let e : host.physical_block + 4 * 0 ≡ host.physical_block = omega arith in
      subst
        (λ a. IsLaidOut (record vm {
          mem = store_word b.mem a (p * pgsize + host.physical_block);
          physical_memory = host.physical_block;
          page_directory = host.physical_block;
          virtual_pages = pages;
          physical_pages = taken;
          tlb_store = tlb;
          tlb_miss = 0;
          tlb_total = 0;
        }))
        e
        (IsLaidOut-rest (with_table b 0 p taken) pages tlb 0 0 (
          with_table-IsLaidOut b blank-IsLaidOut 0 p taken (omega arith)
            (blank_table 0 (omega arith)) hp free filled))

-- Page `i` alone is in use.
abbrev OnlyUsed : Bitmap → ℕ → Type 0
OnlyUsed bm i = (j : ℕ) → bit bm j ≡ (if i == j then 1 else 0)

first_set : (bm bm' : Bitmap) (i : ℕ) → ((j : ℕ) → bit bm j ≡ 0) → Marks 1 bm i bm' → OnlyUsed bm' i
first_set bm bm' i clear m j = ground (arith, m.bits j, clear j)

empty_bits : (pages j : ℕ) → bit (empty_bitmap pages) j ≡ 0
empty_bits pages j = bit_of-zero (j % 8)

-- A memory that `set_physical_mem` leaves: laid out, with a coherent TLB and page 0 in use.
pub record IsReady (vm : Vm) : Type 0 where
  pub laid_out : IsLaidOut vm
  pub coherent : IsCoherent vm
  pub pages_whole : IsBytes vm.virtual_pages
  pub pages_size : vm.virtual_pages.size ≡ total_virtual_pages / 8
  pub page_zero : (j : ℕ) → bit vm.virtual_pages j ≡ (if 0 == j then 1 else 0)

abbrev started : Host → Vm → Bitmap → ℕ → Bitmap → Bitmap → Vm
started host vm frames p taken pages = record vm {
  mem =
      store_word (blank_vm host vm frames).mem host.physical_block
        (p * pgsize + host.physical_block);
  physical_memory = host.physical_block;
  page_directory = host.physical_block;
  virtual_pages = pages;
  physical_pages = taken;
  tlb_store = clear_tlb host.fresh_tlb;
  tlb_miss = 0;
  tlb_total = 0;
}

-- Given a block of memory below the end of the address space, `set_physical_mem` ends well and
-- leaves a laid out memory with a coherent TLB, whatever stood in the fresh TLB, in which page 0
-- alone is in use.
pub set_physical_mem-IsReady :
    (host : Host) (vm : Vm)
    → 0 < host.physical_block
    → host.physical_block + memsize ≤ 2 ^ 32
    → (vm' : Vm) × (set_physical_mem host vm ≡ ok vm') × IsReady vm'
unfolding set_physical_mem set_pages blank_vm
set_physical_mem-IsReady host vm ready room =
    let (one, e1, m1) =
      set_bit-Marks (empty_bitmap total_physical_pages) 0 (λ j. omega arith) (omega arith) in
    let (frames, e2, m2) = set_bit-Marks one 0 m1.whole (omega (arith, m1.same_size)) in
    let (pages, e3, m3) =
      set_bit-Marks (empty_bitmap total_virtual_pages) 0 (λ j. omega arith) (omega arith) in
    let size : frames.size ≡ total_physical_pages / 8 = m2.same_size ∙ m1.same_size in
    let used : bit frames 0 ≡ 1 = ground (arith, m2.bits 0) in
    let second : bit frames 1 ≡ 0 =
      ground (arith, m2.bits 1, m1.bits 1, empty_bits total_physical_pages 1) in
    elim (get_next_avail_p-Search (blank_vm host vm frames) m2.whole (omega (arith, size))) [
      | full all e ↦ absurd (omega (arith, all 1, second))
      | found p taken lo hi free below filled e ↦ (
        started host vm frames p taken pages,
        rw (==_of_ne host.physical_block 0 (omega arith), e1, e2, e, e3),
        record {
          laid_out =
              first_table host vm ready room frames m2.whole size used p taken hi free filled pages
                (clear_tlb host.fresh_tlb);
          coherent =
              λ va h hit. cc (cleared_misses host vm ready room frames m2.whole size used va h);
          pages_whole = m3.whole;
          pages_size = m3.same_size;
          page_zero =
              first_set (empty_bitmap total_virtual_pages) pages 0 (empty_bits total_virtual_pages)
                m3;
        },
      )
    ]
