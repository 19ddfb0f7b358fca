-- ===== src/Vm/Tables/Layout.antt =====
-- Where the page tables lie: the directory in frame 0, each table in a frame of its own.
use cs.Prelude.{ℕ, ◌+◌, ◌*◌, ◌/◌, ◌^◌, ◌≤◌, ◌<◌, ◌≡◌, ap, ◌≢◌, ◌⊎◌, inl, inr, arith}
use native.Mathlib.Decide.{dec_lt, ℕ_discrete}
use cs.Bitmap.{Bitmap}
use cs.Bitmap.View.{bit, IsBytes}
use cs.Memory.{Mem, load_word, store_word}
use cs.Memory.Words.{load-store, load-store_apart}
use cs.Vm.State.{TlbEntry, Vm, memsize, total_physical_pages, page_of, pde_index, pte_index}
use cs.Vm.Tables.{directory_word, entry_address}

-- The word at an index of the directory.
abbrev pub table_at : Vm → ℕ → ℕ
table_at vm d = load_word vm.mem (vm.page_directory + 4 * d)

-- The address of a frame.
abbrev pub frame_address : Vm → ℕ → ℕ
frame_address vm f = f * 4096 + vm.physical_memory

-- `t` is the address of a frame in use behind the directory's.
abbrev pub IsTable : Vm → ℕ → Type 0
IsTable vm t =
    (f : ℕ) × (t ≡ frame_address vm f)
    × (0 < f)
    × (f < total_physical_pages)
    × (bit vm.physical_pages f ≡ 1)

pub record IsLaidOut (vm : Vm) : Type 0 where
  pub ready : 0 < vm.physical_memory
  pub room : vm.physical_memory + memsize ≤ 2 ^ 32
  pub directory : vm.page_directory ≡ vm.physical_memory
  pub frames_whole : IsBytes vm.physical_pages
  pub frames_size : vm.physical_pages.size ≡ total_physical_pages / 8
  pub directory_used : bit vm.physical_pages 0 ≡ 1
  pub tables : (d : ℕ) → d < 1024 → table_at vm d ≢ 0 → IsTable vm (table_at vm d)
  pub apart :
      (d e : ℕ)
      → d < 1024
      → e < 1024
      → d ≢ e
      → table_at vm d ≢ 0
      → table_at vm e ≢ 0
      → (table_at vm d + 4096 ≤ table_at vm e) ⊎ (table_at vm e + 4096 ≤ table_at vm d)

-- The entry for a virtual address in its page table.
abbrev pub entry_of : Vm → ℕ → ℕ
entry_of vm va = load_word vm.mem (entry_address vm va)

-- The frame `f` is neither the directory nor a page table.
pub record IsData (vm : Vm) (f : ℕ) : Type 0 where
  pub behind : 0 < f
  pub no_table : (d : ℕ) → d < 1024 → table_at vm d ≢ 0 → table_at vm d ≢ frame_address vm f

-- No frame in use becomes a table.
abbrev pub KeepsData : Vm → Vm → Type 0
KeepsData vm vm' = (g : ℕ) → bit vm.physical_pages g ≡ 1 → IsData vm g → IsData vm' g

-- A change of memory outside of the directory.
module _ (vm : Vm) (m : Mem)
    (same : (d : ℕ) → d < 1024 → table_at (record vm { mem = m }) d ≡ table_at vm d) where
  pub same_tables-IsLaidOut : IsLaidOut vm → IsLaidOut (record vm { mem = m })
  same_tables-IsLaidOut s = record {
    ready = s.ready;
    room = s.room;
    directory = s.directory;
    frames_whole = s.frames_whole;
    frames_size = s.frames_size;
    directory_used = s.directory_used;
    tables = λ d h n. rw (same d h) (s.tables d h (rw (same d h) at n));
    apart = λ d e hd he ne nd ne'.
        rw (same d hd, same e he)
          (s.apart d e hd he ne (rw (same d hd) at nd) (rw (same e he) at ne'));
  }

  pub same_tables-IsData : (g : ℕ) → IsData vm g → IsData (record vm { mem = m }) g
  same_tables-IsData g data_frame = record {
    behind = data_frame.behind;
    no_table = λ d h n. rw (same d h) (data_frame.no_table d h (rw (same d h) at n));
  }

module _ (vm : Vm) (s : IsLaidOut vm) where
  -- A table lies behind the directory.
  pub behind_directory :
      (d : ℕ) → d < 1024 → table_at vm d ≢ 0 → vm.page_directory + 4096 ≤ table_at vm d
  behind_directory d h n = let (f, e, lo, hi, used) = s.tables d h n in omega (arith, s.directory)

  entries_apart :
      (va va' : ℕ)
      → va < 2 ^ 32
      → va' < 2 ^ 32
      → directory_word vm va ≢ 0
      → directory_word vm va' ≢ 0
      → page_of va ≢ page_of va'
      → (entry_address vm va' + 4 ≤ entry_address vm va)
        ⊎ (entry_address vm va + 4 ≤ entry_address vm va')
  entries_apart va va' h h' m m' ne = elim (ℕ_discrete (pde_index va) (pde_index va')) [
    | yes same ↦
        let t : directory_word vm va ≡ directory_word vm va' = ap (λ d. table_at vm d) same in
        elim (dec_lt (pte_index va) (pte_index va')) [
          | yes below ↦ inr (omega arith)
          | no above ↦ inl (omega arith)
        ]
    | no differ ↦
        elim (s.apart (pde_index va) (pde_index va') (omega arith) (omega arith) differ m m') [
          | inl below ↦ inr (omega arith)
          | inr above ↦ inl (omega arith)
        ]
  ]

  abbrev pub with_entry : ℕ → ℕ → Vm
  with_entry va v = record vm { mem = store_word vm.mem (entry_address vm va) v }

  module _ (va v : ℕ) (hva : va < 2 ^ 32) (mapped : directory_word vm va ≢ 0) where
    -- A write of an entry leaves the directory alone.
    pub table_at-with_entry : (d : ℕ) → d < 1024 → table_at (with_entry va v) d ≡ table_at vm d
    table_at-with_entry d h =
        load-store_apart vm.mem (entry_address vm va) v (vm.page_directory + 4 * d)
          (inl (omega (arith, behind_directory (pde_index va) (omega arith) mapped)))

    pub entry_of-with_entry_self : v < 2 ^ 32 → entry_of (with_entry va v) va ≡ v
    entry_of-with_entry_self hv =
        rw (table_at-with_entry (pde_index va) (omega arith))
          (load-store vm.mem (entry_address vm va) v hv)

    -- The entry of a page in another table, or at another index, stays.
    pub entry_of-with_entry_ne :
        (va' : ℕ)
        → va' < 2 ^ 32
        → directory_word vm va' ≢ 0
        → page_of va ≢ page_of va'
        → entry_of (with_entry va v) va' ≡ entry_of vm va'
    entry_of-with_entry_ne va' hva' mapped' ne =
        rw (table_at-with_entry (pde_index va') (omega arith)) (
          load-store_apart vm.mem (entry_address vm va) v (entry_address vm va')
            (entries_apart va va' hva hva' mapped mapped' ne))

    -- The layout stays.
    pub with_entry-IsLaidOut : IsLaidOut (with_entry va v)
    with_entry-IsLaidOut = same_tables-IsLaidOut vm (with_entry va v).mem table_at-with_entry s

    pub with_entry-IsData : (g : ℕ) → IsData vm g → IsData (with_entry va v) g
    with_entry-IsData = same_tables-IsData vm (with_entry va v).mem table_at-with_entry

-- The layout does not hang on the TLB, its counters and the bitmap of virtual pages.
pub IsLaidOut-rest :
    (vm : Vm) (pages : Bitmap) (tlb : ℕ → TlbEntry) (miss total : ℕ)
    → IsLaidOut vm
    → IsLaidOut
        (record vm { virtual_pages = pages; tlb_store = tlb; tlb_miss = miss; tlb_total = total })
IsLaidOut-rest vm pages tlb miss total s = record {
  ready = s.ready;
  room = s.room;
  directory = s.directory;
  frames_whole = s.frames_whole;
  frames_size = s.frames_size;
  directory_used = s.directory_used;
  tables = s.tables;
  apart = s.apart;
}
