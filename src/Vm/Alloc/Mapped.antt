-- ===== src/Vm/Alloc/Mapped.antt =====
-- What it is that a run of pages is mapped to fresh frames.
use cs.Prelude.{
  ℕ, zero, suc, ◌+◌, ◌*◌, ◌^◌, ◌≤◌, ◌<◌, ◌≡◌, refl, sym, ap, ◌∙◌, ◌≢◌, ◌⊎◌, inl, inr, arith,
}
use cs.Bitmap.View.{bit}
use cs.Vm.State.{Vm, total_physical_pages, page_of}
use cs.Vm.Pages.Runs.{bit-cases}
use cs.Vm.Tables.{directory_word}
use cs.Vm.Tables.Layout.{IsData, KeepsData, IsLaidOut, frame_address, entry_of}
use cs.Vm.Tables.Cache.{IsCoherent}

-- The page at `va` is mapped in `vm'` to a frame that was free in `vm` and is now in use.
abbrev pub IsFresh : Vm → Vm → ℕ → Type 0
IsFresh vm vm' va =
    (f : ℕ) × (f < total_physical_pages)
    × (bit vm.physical_pages f ≡ 0)
    × (bit vm'.physical_pages f ≡ 1)
    × IsData vm' f
    × (directory_word vm' va ≢ 0)
    × (entry_of vm' va ≡ frame_address vm f)

-- The `n` pages from `vpn` on are mapped to fresh frames, each to its own; all else stays.
pub record IsMapped (vm vm' : Vm) (vpn n : ℕ) : Type 0 where
  pub laid_out : IsLaidOut vm'
  pub coherent : IsCoherent vm'
  pub same_pages : vm'.virtual_pages ≡ vm.virtual_pages
  pub same_base : vm'.physical_memory ≡ vm.physical_memory
  pub stays_used : (f : ℕ) → bit vm.physical_pages f ≡ 1 → bit vm'.physical_pages f ≡ 1
  pub keeps_data : KeepsData vm vm'
  pub fresh : (i : ℕ) → i < n → IsFresh vm vm' ((vpn + i) * 4096)
  pub distinct :
      (i j : ℕ)
      → i < n
      → j < n
      → i ≢ j
      → entry_of vm' ((vpn + i) * 4096) ≢ entry_of vm' ((vpn + j) * 4096)
  pub keeps :
      (va : ℕ)
      → va < 2 ^ 32
      → directory_word vm va ≢ 0
      → (page_of va < vpn) ⊎ (vpn + n ≤ page_of va)
      → (directory_word vm' va ≢ 0) × (entry_of vm' va ≡ entry_of vm va)

pub IsMapped-none : (vm : Vm) (vpn : ℕ) → IsLaidOut vm → IsCoherent vm → IsMapped vm vm vpn 0
IsMapped-none vm vpn s c = record {
  laid_out = s;
  coherent = c;
  same_pages = refl;
  same_base = refl;
  stays_used = λ f u. u;
  keeps_data = λ g u data_frame. data_frame;
  fresh = λ i h. absurd (omega arith);
  distinct = λ i j h. absurd (omega arith);
  keeps = λ va h m o. (m, refl);
}

module _ {vm vm1 vm2 : Vm} (vpn n : ℕ) (small : vpn < 1048576) (a : IsMapped vm vm1 vpn 1)
    (b : IsMapped vm1 vm2 (vpn + 1) n) where
  -- The first page, after the others are mapped too.
  head_kept :
      (directory_word vm2 (vpn * 4096) ≢ 0)
      × (entry_of vm2 (vpn * 4096) ≡ entry_of vm1 (vpn * 4096))
  head_kept =
      let z : (vpn + 0) * 4096 ≡ vpn * 4096 = omega arith in
      let (f, hf, free, used, dat, there, e) = a.fresh 0 (omega arith) in
      b.keeps (vpn * 4096) (omega arith) (rw z at there) (inl (omega arith))

  head-IsFresh : IsFresh vm vm2 (vpn * 4096)
  head-IsFresh =
      let z : (vpn + 0) * 4096 ≡ vpn * 4096 = omega arith in
      let (f, hf, free, used, dat, there, e) = a.fresh 0 (omega arith) in
      (
        f,
        hf,
        free,
        b.stays_used f used,
        b.keeps_data f used dat,
        head_kept.0,
        head_kept.1 ∙ (rw z at e),
      )

  still_free : (f : ℕ) → bit vm1.physical_pages f ≡ 0 → bit vm.physical_pages f ≡ 0
  still_free f free = elim (bit-cases vm.physical_pages f) [
    | inl zero_bit ↦ zero_bit
    | inr one_bit ↦ absurd (omega (arith, a.stays_used f one_bit, free))
  ]

  tail-IsFresh : (i : ℕ) → i < n → IsFresh vm vm2 ((vpn + suc i) * 4096)
  tail-IsFresh i h =
      let z : (vpn + 1 + i) * 4096 ≡ (vpn + suc i) * 4096 = omega arith in
      let (f, hf, free, used, dat, there, e) = b.fresh i h in
      (
        f,
        hf,
        still_free f free,
        used,
        dat,
        rw z at there,
        (rw z at e) ∙ ap (λ (k : ℕ). f * 4096 + k) a.same_base,
      )

  head_apart : (i : ℕ) → i < n → entry_of vm2 (vpn * 4096) ≢ entry_of vm2 ((vpn + suc i) * 4096)
  head_apart i h eq =
      let z : (vpn + 0) * 4096 ≡ vpn * 4096 = omega arith in
      let w : (vpn + 1 + i) * 4096 ≡ (vpn + suc i) * 4096 = omega arith in
      let (f, hf, free, used, dat, there, e) = a.fresh 0 (omega arith) in
      let (g, hg, free', used', dat', there', e') = b.fresh i h in
      let same : f ≡ g = omega (arith, eq, head_kept.1, rw z at e, rw w at e', a.same_base) in
      omega (arith, used, free', ap (λ (k : ℕ). bit vm1.physical_pages k) same)

  all-IsFresh : (i : ℕ) → i < suc n → IsFresh vm vm2 ((vpn + i) * 4096)
  all-IsFresh zero h = let z : (vpn + 0) * 4096 ≡ vpn * 4096 = omega arith in rw z head-IsFresh
  all-IsFresh (suc i) h = tail-IsFresh i (omega arith)

  all_distinct :
      (i j : ℕ)
      → i < suc n
      → j < suc n
      → i ≢ j
      → entry_of vm2 ((vpn + i) * 4096) ≢ entry_of vm2 ((vpn + j) * 4096)
  all_distinct zero zero hi hj ne = absurd (ne refl)
  all_distinct zero (suc j) hi hj ne =
      let z : (vpn + 0) * 4096 ≡ vpn * 4096 = omega arith in rw z (head_apart j (omega arith))
  all_distinct (suc i) zero hi hj ne =
      let z : (vpn + 0) * 4096 ≡ vpn * 4096 = omega arith in
      rw z (λ eq. head_apart i (omega arith) (sym eq))
  all_distinct (suc i) (suc j) hi hj ne =
      let u : (vpn + suc i) * 4096 ≡ (vpn + 1 + i) * 4096 = omega arith in
      let w : (vpn + suc j) * 4096 ≡ (vpn + 1 + j) * 4096 = omega arith in
      rw (u, w) (b.distinct i j (omega arith) (omega arith) (λ e. ne (ap suc e)))

  all_kept :
      (va : ℕ)
      → va < 2 ^ 32
      → directory_word vm va ≢ 0
      → (page_of va < vpn) ⊎ (vpn + suc n ≤ page_of va)
      → (directory_word vm2 va ≢ 0) × (entry_of vm2 va ≡ entry_of vm va)
  all_kept va h m outside =
      let first : (page_of va < vpn) ⊎ (vpn + 1 ≤ page_of va) = elim outside [
        | inl l ↦ inl l
        | inr r ↦ inr (omega arith)
      ] in
      let rest : (page_of va < vpn + 1) ⊎ (vpn + 1 + n ≤ page_of va) = elim outside [
        | inl l ↦ inl (omega arith)
        | inr r ↦ inr (omega arith)
      ] in
      let k = a.keeps va h m first in let k' = b.keeps va h k.0 rest in (k'.0, k'.1 ∙ k.1)

  pub IsMapped-trans : IsMapped vm vm2 vpn (suc n)
  IsMapped-trans = record {
    laid_out = b.laid_out;
    coherent = b.coherent;
    same_pages = b.same_pages ∙ a.same_pages;
    same_base = b.same_base ∙ a.same_base;
    stays_used = λ f u. b.stays_used f (a.stays_used f u);
    keeps_data = λ g u data_frame. b.keeps_data g (a.stays_used g u) (a.keeps_data g u data_frame);
    fresh = all-IsFresh;
    distinct = all_distinct;
    keeps = all_kept;
  }
