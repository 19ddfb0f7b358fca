-- ===== src/Vm/Tables/Growth.antt =====
-- A page table that is added to the directory.
use native.Mathlib.Decide.{dec_lt, ℕ_discrete}
use cs.Prelude.{ℕ, ◌+◌, ◌*◌, ◌≤◌, ◌<◌, ◌≡◌, refl, sym, ap, ◌∙◌, ◌≢◌, ◌⊎◌, inl, inr, arith, ◌^◌}
use cs.Bitmap.{Bitmap}
use cs.Bitmap.View.{bit}
use cs.Memory.{store_word}
use cs.Memory.Words.{load-store, load-store_apart}
use cs.Vm.State.{Vm, total_physical_pages, pde_index}
use cs.Vm.Pages.Runs.{Filled}
use cs.Vm.Tables.{directory_word, entry_address}
use cs.Vm.Tables.Layout.{
  KeepsData, IsLaidOut, IsTable, table_at, frame_address, entry_of, behind_directory,
}

-- `vm'` is `vm` with the free frame `p` as the table at the index `d` of the directory.
abbrev pub with_table : Vm → ℕ → ℕ → Bitmap → Vm
with_table vm d p frames = record vm {
  physical_pages = frames;
  mem = store_word vm.mem (vm.page_directory + 4 * d) (frame_address vm p);
}

swap_sides : {A B : Type 0} → A ⊎ B → B ⊎ A
swap_sides (inl a) = inr a
swap_sides (inr b) = inl b

module _ (vm : Vm) (s : IsLaidOut vm) (d p : ℕ) (frames : Bitmap) (hd : d < 1024)
    (fresh : table_at vm d ≡ 0) (hp : p < total_physical_pages) (free : bit vm.physical_pages p ≡ 0)
    (filled : Filled vm.physical_pages p 1 frames) where
  behind : 0 < p
  behind = elim (ℕ_discrete p 0) [
    | yes e ↦
        absurd (omega (arith, s.directory_used, free, ap (λ (k : ℕ). bit vm.physical_pages k) e))
    | no ne ↦ omega arith
  ]

  pub table_at-with_table_self : table_at (with_table vm d p frames) d ≡ frame_address vm p
  table_at-with_table_self =
      load-store vm.mem (vm.page_directory + 4 * d) (frame_address vm p) (omega (arith, s.room))

  pub table_at-with_table_ne :
      (e : ℕ) → e ≢ d → table_at (with_table vm d p frames) e ≡ table_at vm e
  table_at-with_table_ne e ne =
      load-store_apart vm.mem (vm.page_directory + 4 * d) (frame_address vm p)
        (vm.page_directory + 4 * e)
        (elim (dec_lt e d) [ yes below ↦ inl (omega arith) | no above ↦ inr (omega arith) ])

  IsTable-with_table : (t : ℕ) → IsTable vm t → IsTable (with_table vm d p frames) t
  IsTable-with_table t (f, e, lo, hi, used) = (f, e, lo, hi, ground (arith, filled.bits f))

  -- A table that was there lies apart from the new one.
  apart_from_new :
      (t : ℕ) → IsTable vm t → (t + 4096 ≤ frame_address vm p) ⊎ (frame_address vm p + 4096 ≤ t)
  apart_from_new t (f, e, lo, hi, used) = elim (dec_lt f p) [
    | yes below ↦ inl (omega arith)
    | no above ↦ elim (ℕ_discrete f p) [
      | yes same ↦ absurd (let u : bit vm.physical_pages f ≡ 0 = rw same free in omega arith)
      | no differ ↦ inr (omega arith)
    ]
  ]

  new-IsTable : IsTable (with_table vm d p frames) (frame_address vm p)
  new-IsTable = (p, refl, behind, hp, ground (arith, filled.bits p))

  -- What stands at an index of the new directory.
  data Slot (e : ℕ) : Type 0 where
    new_slot : e ≡ d → table_at (with_table vm d p frames) e ≡ frame_address vm p → Slot e
    old_slot :
        e ≢ d
        → table_at (with_table vm d p frames) e ≡ table_at vm e
        → (table_at vm e ≢ 0 → IsTable vm (table_at vm e))
        → Slot e

  slot : (e : ℕ) → e < 1024 → Slot e
  slot e he = elim (ℕ_discrete e d) [
    | yes same ↦ new_slot same (rw same table_at-with_table_self)
    | no ne ↦ old_slot ne (table_at-with_table_ne e ne) (s.tables e he)
  ]

  pub with_table-IsLaidOut : IsLaidOut (with_table vm d p frames)
  with_table-IsLaidOut = record {
    ready = s.ready;
    room = s.room;
    directory = s.directory;
    frames_whole = filled.whole;
    frames_size = filled.same_size ∙ s.frames_size;
    directory_used = ground (arith, filled.bits 0, s.directory_used, behind);
    tables = λ e he n. elim (slot e he) [
      | new_slot same v ↦ rw v new-IsTable
      | old_slot ne v t ↦ rw v (IsTable-with_table _ (t (rw v at n)))
    ];
    apart = λ e e' he he' ne n n'. elim (slot e he) [
      | new_slot same v ↦ elim (slot e' he') [
        | new_slot same' v' ↦ absurd (ne (same ∙ sym same'))
        | old_slot ne' v' t' ↦ rw (v, v') (swap_sides (apart_from_new _ (t' (rw v' at n'))))
      ]
      | old_slot ned v t ↦ elim (slot e' he') [
        | new_slot same' v' ↦ rw (v, v') (apart_from_new _ (t (rw v at n)))
        | old_slot ne' v' t' ↦ rw (v, v') (s.apart e e' he he' ne (rw v at n) (rw v' at n'))
      ]
    ];
  }

  -- The entries of the tables that were there stay.
  pub entry_of-with_table :
      (va : ℕ)
      → va < 2 ^ 32
      → directory_word vm va ≢ 0
      → (directory_word (with_table vm d p frames) va ≡ directory_word vm va)
        × (entry_of (with_table vm d p frames) va ≡ entry_of vm va)
  entry_of-with_table va hva mapped =
      let ne : pde_index va ≢ d = λ e. mapped (ap (λ k. table_at vm k) e ∙ fresh) in
      let same = table_at-with_table_ne (pde_index va) ne in
      let far = behind_directory vm s (pde_index va) (omega arith) mapped in
      (
        same,
        rw same (
            load-store_apart vm.mem (vm.page_directory + 4 * d) (frame_address vm p)
              (entry_address vm va) (inr (omega arith))),
      )

  -- A frame in use does not become a table.
  pub with_table-KeepsData : KeepsData vm (with_table vm d p frames)
  with_table-KeepsData g used data_frame = record {
    behind = data_frame.behind;
    no_table = λ e he n z. elim (slot e he) [
      | new_slot same v ↦
          let eq : g ≡ p = omega (arith, z, v) in
          omega (arith, used, free, ap (λ (k : ℕ). bit vm.physical_pages k) eq)
      | old_slot ne v t ↦ data_frame.no_table e he (rw v at n) (sym v ∙ z)
    ];
  }
