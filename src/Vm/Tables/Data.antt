-- ===== src/Vm/Tables/Data.antt =====
-- Writes to a frame that holds no page table.
use cs.Prelude.{ℕ, ◌+◌, ◌*◌, ◌^◌, ◌≤◌, ◌<◌, ◌≡◌, sym, ap, ◌∙◌, ◌≢◌, inl, inr, arith}
use native.Mathlib.Decide.{dec_lt}
use cs.Memory.{Mem, load_word}
use cs.Memory.Words.{load-ext}
use cs.Vm.State.{Vm, pde_index, pte_index}
use cs.Vm.Tables.{directory_word}
use cs.Vm.Tables.Layout.{
  IsData, same_tables-IsLaidOut, same_tables-IsData, IsLaidOut, table_at, frame_address, entry_of,
}
use cs.Vm.Tables.Frames.{ChangesOnly}
use cs.Vm.Tables.Cache.{IsCoherent}

module _ (vm : Vm) (s : IsLaidOut vm) (f : ℕ) (data_frame : IsData vm f) (m : Mem)
    (only : ChangesOnly vm f m) where
  word_stays :
      (g o : ℕ)
      → g ≢ f
      → o + 4 ≤ 4096
      → load_word m (frame_address vm g + o) ≡ load_word vm.mem (frame_address vm g + o)
  word_stays g o ne h = load-ext m vm.mem (frame_address vm g + o) (λ x lo hi.
      only x (elim (dec_lt g f) [ yes below ↦ inl (omega arith) | no above ↦ inr (omega arith) ]))

  pub table_at-rewrite : (d : ℕ) → d < 1024 → table_at (record vm { mem = m }) d ≡ table_at vm d
  table_at-rewrite d h =
      let e : vm.page_directory + 4 * d ≡ frame_address vm 0 + 4 * d = omega (arith, s.directory) in
      rw e (word_stays 0 (4 * d) (omega (arith, data_frame.behind)) (omega arith))

  pub entry_of-rewrite :
      (va : ℕ)
      → va < 2 ^ 32
      → directory_word vm va ≢ 0
      → (directory_word (record vm { mem = m }) va ≡ directory_word vm va)
        × (entry_of (record vm { mem = m }) va ≡ entry_of vm va)
  entry_of-rewrite va h mapped =
      let same = table_at-rewrite (pde_index va) (omega arith) in
      let (g, e, lo, hi, used) = s.tables (pde_index va) (omega arith) mapped in
      let ne : g ≢ f = λ z.
        data_frame.no_table (pde_index va) (omega arith) mapped
          (e ∙ ap (λ k. frame_address vm k) z) in
      (same, rw (same, e) (word_stays g (4 * pte_index va) ne (omega arith)))

  pub rewrite-IsCoherent : IsCoherent vm → IsCoherent (record vm { mem = m })
  rewrite-IsCoherent c va h hit =
      let k = c va h hit in
      let j = entry_of-rewrite va h k.0 in (λ z. k.0 (sym j.0 ∙ z), k.1 ∙ sym j.1)

  pub rewrite-IsLaidOut : IsLaidOut (record vm { mem = m })
  rewrite-IsLaidOut = same_tables-IsLaidOut vm m table_at-rewrite s

  pub rewrite-IsData : (g : ℕ) → IsData vm g → IsData (record vm { mem = m }) g
  rewrite-IsData = same_tables-IsData vm m table_at-rewrite
