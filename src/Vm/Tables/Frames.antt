-- ===== src/Vm/Tables/Frames.antt =====
-- A fresh frame of data, taken from the bitmap and cleared.
use cs.Prelude.{ℕ, ◌+◌, ◌*◌, ◌^◌, ◌≤◌, ◌<◌, ◌≡◌, sym, ap, ◌∙◌, ◌≢◌, ◌⊎◌, inl, inr, arith}
use native.Mathlib.Decide.{dec_lt, ℕ_discrete}
use cs.Bitmap.{Bitmap}
use cs.Bitmap.View.{bit}
use cs.Memory.{Mem, load_word}
use cs.Memory.Words.{load-ext}
use cs.Vm.State.{Vm, pde_index, pte_index}
use cs.Vm.Pages.Runs.{Filled}
use cs.Vm.Tables.{directory_word}
use cs.Vm.Tables.Layout.{IsData, IsLaidOut, table_at, frame_address, entry_of}

-- Any change of memory inside of the frame `p`.
abbrev pub ChangesOnly : Vm → ℕ → Mem → Type 0
ChangesOnly vm p m =
    (x : ℕ) → (x < frame_address vm p) ⊎ (frame_address vm p + 4096 ≤ x) → m x ≡ vm.mem x

abbrev pub with_frame : Vm → Bitmap → Mem → Vm
with_frame vm frames m = record vm { physical_pages = frames; mem = m }

module _ (vm : Vm) (s : IsLaidOut vm) (p : ℕ) (frames : Bitmap) (m : Mem)
    (free : bit vm.physical_pages p ≡ 0) (filled : Filled vm.physical_pages p 1 frames)
    (only : ChangesOnly vm p m) where
  behind : 0 < p
  behind = elim (ℕ_discrete p 0) [
    | yes e ↦
        absurd (omega (arith, s.directory_used, free, ap (λ (k : ℕ). bit vm.physical_pages k) e))
    | no ne ↦ omega arith
  ]

  -- A frame in use is another frame.
  differs : (f : ℕ) → bit vm.physical_pages f ≡ 1 → (f < p) ⊎ (p < f)
  differs f used = elim (dec_lt f p) [
    | yes below ↦ inl below
    | no above ↦ elim (ℕ_discrete f p) [
      | yes same ↦ absurd (omega (arith, used, free, ap (λ (k : ℕ). bit vm.physical_pages k) same))
      | no differ ↦ inr (omega arith)
    ]
  ]

  -- A word in a frame in use stays.
  word_stays :
      (f o : ℕ)
      → bit vm.physical_pages f ≡ 1
      → o + 4 ≤ 4096
      → load_word m (frame_address vm f + o) ≡ load_word vm.mem (frame_address vm f + o)
  word_stays f o used h = load-ext m vm.mem (frame_address vm f + o) (λ x lo hi.
      only x
        (elim (differs f used) [ inl below ↦ inl (omega arith) | inr above ↦ inr (omega arith) ]))

  pub table_at-with_frame : (d : ℕ) → d < 1024 → table_at (with_frame vm frames m) d ≡ table_at vm d
  table_at-with_frame d h =
      let e : vm.page_directory + 4 * d ≡ frame_address vm 0 + 4 * d = omega (arith, s.directory) in
      rw e (word_stays 0 (4 * d) s.directory_used (omega arith))

  pub entry_of-with_frame :
      (va : ℕ)
      → va < 2 ^ 32
      → directory_word vm va ≢ 0
      → (directory_word (with_frame vm frames m) va ≢ 0)
        × (entry_of (with_frame vm frames m) va ≡ entry_of vm va)
  entry_of-with_frame va h mapped =
      let same = table_at-with_frame (pde_index va) (omega arith) in
      let (f, e, lo, hi, used) = s.tables (pde_index va) (omega arith) mapped in
      (
        λ z. mapped (sym same ∙ z),
        rw (same, e) (word_stays f (4 * pte_index va) used (omega arith)),
      )

  pub with_frame-IsLaidOut : IsLaidOut (with_frame vm frames m)
  with_frame-IsLaidOut = record {
    ready = s.ready;
    room = s.room;
    directory = s.directory;
    frames_whole = filled.whole;
    frames_size = filled.same_size ∙ s.frames_size;
    directory_used = ground (arith, filled.bits 0, s.directory_used);
    tables = λ d h n.
        let (f, e, lo, hi, used) = s.tables d h (rw (table_at-with_frame d h) at n) in
        rw (table_at-with_frame d h) (f, e, lo, hi, ground (arith, filled.bits f));
    apart = λ d e hd he ne nd ne'.
        rw (table_at-with_frame d hd, table_at-with_frame e he)
          (s.apart d e hd he ne (rw (table_at-with_frame d hd) at nd)
            (rw (table_at-with_frame e he) at ne'));
  }

  -- The frame is a frame of data, and the others stay so.
  pub with_frame-IsData : IsData (with_frame vm frames m) p
  with_frame-IsData = record {
    behind = behind;
    no_table = λ d h n z.
        let same = table_at-with_frame d h in
        let (f, e, lo, hi, used) = s.tables d h (rw same at n) in
        elim (differs f used) [
          | inl below ↦ omega (arith, same, e, z)
          | inr above ↦ omega (arith, same, e, z)
        ];
  }

  pub with_frame-KeepsData : (g : ℕ) → IsData vm g → IsData (with_frame vm frames m) g
  with_frame-KeepsData g data_frame = record {
    behind = data_frame.behind;
    no_table = λ d h n z.
        let same = table_at-with_frame d h in data_frame.no_table d h (rw same at n) (sym same ∙ z);
  }
