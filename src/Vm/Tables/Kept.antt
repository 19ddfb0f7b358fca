-- ===== src/Vm/Tables/Kept.antt =====
-- Changes that leave the page tables as they were.
use cs.Prelude.{ℕ, ◌+◌, ◌*◌, ◌^◌, ◌≤◌, ◌<◌, ◌≡◌, refl, sym, ap, ◌∙◌, ◌≢◌, true, arith}
use native.Mathlib.Decide.{ℕ_discrete}
use cs.Bitmap.{Bitmap}
use cs.Bitmap.View.{Marks}
use cs.Memory.{Mem}
use cs.Memory.Words.{load-ext}
use cs.Vm.State.{TlbEntry, Vm, memsize, page_of, pde_index}
use cs.Vm.Tables.{directory_word, entry_address, tlb_hits, tlb_index, free_tlb}
use cs.Vm.Tables.Layout.{
  IsData, IsLaidOut, same_tables-IsLaidOut, same_tables-IsData, table_at, frame_address, entry_of,
  IsLaidOut-rest,
}
use cs.Vm.Tables.Frames.{ChangesOnly}
use cs.Vm.Tables.Cache.{IsCoherent, with_tlb}
use cs.Vm.Tables.Data.{entry_of-rewrite, table_at-rewrite}

-- The memory stays laid out and the TLB coherent, and all entries and frames of data stay.
pub record Kept (vm vm' : Vm) : Type 0 where
  pub laid_out : IsLaidOut vm'
  pub coherent : IsCoherent vm'
  pub same_base : vm'.physical_memory ≡ vm.physical_memory
  pub keeps_data : (g : ℕ) → IsData vm g → IsData vm' g
  pub entries :
      (va : ℕ)
      → va < 2 ^ 32
      → directory_word vm va ≢ 0
      → (directory_word vm' va ≢ 0) × (entry_of vm' va ≡ entry_of vm va)

-- An entry that is dropped from the TLB.
pub free_tlb-IsCoherent : (vm : Vm) (vpn : ℕ) → IsCoherent vm → IsCoherent (free_tlb vm vpn)
unfolding free_tlb
free_tlb-IsCoherent vm vpn c va h hit = elim (ℕ_discrete (tlb_index vpn) (tlb_index (page_of va))) [
  | yes same ↦ absurd (ground (arith, hit))
  | no differ ↦
      let hit' : tlb_hits vm va ≡ true = ground arith in
      let k = c va h hit' in (k.0, ground (arith, k.1))
]

module _ (vm : Vm) (s : IsLaidOut vm) (tlb : ℕ → TlbEntry) (miss total : ℕ)
    (c : IsCoherent (with_tlb vm tlb miss total)) (m : Mem)
    (same : (d : ℕ) → d < 1024 → table_at (record vm { mem = m }) d ≡ table_at vm d)
    (entries : (va : ℕ)
      → va < 2 ^ 32
      → directory_word vm va ≢ 0
      → entry_of (record vm { mem = m }) va ≡ entry_of vm va) where
  -- A TLB that is coherent, and a change of the memory that leaves the tables.
  pub same_tables-Kept : Kept vm (record (with_tlb vm tlb miss total) { mem = m })
  same_tables-Kept =
      let kept : (va : ℕ)
          → va < 2 ^ 32
          → directory_word vm va ≢ 0
          → (directory_word (record vm { mem = m }) va ≢ 0)
            × (entry_of (record vm { mem = m }) va ≡ entry_of vm va) =
        λ va h there.
          (λ z. there (sym (same (pde_index va) (omega arith)) ∙ z), entries va h there) in
      record {
        laid_out =
            IsLaidOut-rest (record vm { mem = m }) vm.virtual_pages tlb miss total
              (same_tables-IsLaidOut vm m same s);
        coherent = λ va h hit. let k = c va h hit in let j = kept va h k.0 in (j.0, k.1 ∙ sym j.1);
        same_base = refl;
        keeps_data = λ g data_frame.
            let d = same_tables-IsData vm m same g data_frame in
            record { behind = d.behind; no_table = d.no_table };
        entries = kept;
      }

-- A change inside of a frame of data.
pub rewrite-Kept :
    (vm : Vm) (s : IsLaidOut vm) (tlb : ℕ → TlbEntry) (miss total f : ℕ) (m : Mem)
    → IsCoherent (with_tlb vm tlb miss total)
    → IsData vm f
    → ChangesOnly vm f m
    → Kept vm (record (with_tlb vm tlb miss total) { mem = m })
rewrite-Kept vm s tlb miss total f m c data_frame only =
    same_tables-Kept vm s tlb miss total c m (table_at-rewrite vm s f data_frame m only)
      (λ va h there. (entry_of-rewrite vm s f data_frame m only va h there).1)

-- A change outside of the block.
pub outside-Kept :
    (vm : Vm) (s : IsLaidOut vm) (tlb : ℕ → TlbEntry) (miss total : ℕ) (m : Mem)
    → IsCoherent (with_tlb vm tlb miss total)
    → ((x : ℕ) → vm.physical_memory ≤ x → x < vm.physical_memory + memsize → m x ≡ vm.mem x)
    → Kept vm (record (with_tlb vm tlb miss total) { mem = m })
outside-Kept vm s tlb miss total m c only =
    let same : (d : ℕ) → d < 1024 → table_at (record vm { mem = m }) d ≡ table_at vm d = λ d h.
      load-ext m vm.mem (vm.page_directory + 4 * d)
        (λ x lo hi. only x (omega (arith, s.directory)) (omega (arith, s.directory))) in
    same_tables-Kept vm s tlb miss total c m same (λ va h there.
      let (g, e, lo, hi, used) = s.tables (pde_index va) (omega arith) there in
      rw (same (pde_index va) (omega arith)) (
        load-ext m vm.mem (entry_address vm va)
          (λ x lo' hi'. only x (omega (arith, e)) (omega (arith, e)))))

-- A frame of data that is free again, and other virtual pages.
pub released-Kept :
    (vm vm' : Vm) (f : ℕ) (pages frames : Bitmap)
    → Kept vm vm'
    → IsData vm f
    → Marks 0 vm'.physical_pages f frames
    → Kept vm (record vm' { virtual_pages = pages; physical_pages = frames })
released-Kept vm vm' f pages frames k data_frame marks =
    let s = k.laid_out in
    let dat = k.keeps_data f data_frame in
    record {
      laid_out = record {
        ready = s.ready;
        room = s.room;
        directory = s.directory;
        frames_whole = marks.whole;
        frames_size = marks.same_size ∙ s.frames_size;
        directory_used = ground (arith, marks.bits 0, s.directory_used, dat.behind);
        tables = λ d h n.
            let (g, e, lo, hi, used) = s.tables d h n in
            let ne : f ≢ g = λ z. dat.no_table d h n (e ∙ ap (frame_address vm') (sym z)) in
            (g, e, lo, hi, ground (arith, marks.bits g, used));
        apart = s.apart;
      };
      coherent = k.coherent;
      same_base = k.same_base;
      keeps_data =
          λ g d. let d' = k.keeps_data g d in record { behind = d'.behind; no_table = d'.no_table };
      entries = k.entries;
    }

-- An entry that is dropped from the TLB.
pub free_tlb-Kept : (vm vm' : Vm) (vpn : ℕ) → Kept vm vm' → Kept vm (free_tlb vm' vpn)
unfolding free_tlb
free_tlb-Kept vm vm' vpn k = record {
  laid_out =
      IsLaidOut-rest vm' vm'.virtual_pages (free_tlb vm' vpn).tlb_store vm'.tlb_miss vm'.tlb_total
        k.laid_out;
  coherent = free_tlb-IsCoherent vm' vpn k.coherent;
  same_base = k.same_base;
  keeps_data =
      λ g d. let d' = k.keeps_data g d in record { behind = d'.behind; no_table = d'.no_table };
  entries = k.entries;
}
