-- ===== src/Vm/Session/Owned.antt =====
-- Pages that own their frames, and the changes that keep them so.
use cs.Prelude.{ℕ, ◌+◌, ◌*◌, ◌/◌, ◌<◌, ◌≡◌, sym, ap, ◌∙◌, ◌≢◌, arith}
use mathlib.Core.Path.{subst}
use native.Mathlib.Decide.{ℕ_discrete}
use cs.Bitmap.View.{bit, IsBytes, Marks}
use cs.Vm.State.{Vm, total_physical_pages, total_virtual_pages}
use cs.Vm.Pages.Runs.{Filled}
use cs.Vm.Tables.{directory_word}
use cs.Vm.Tables.Layout.{IsData, IsLaidOut, frame_address, entry_of}
use cs.Vm.Tables.Cache.{IsCoherent}
use cs.Vm.Tables.Kept.{Kept}
use cs.Vm.Alloc.Mapped.{IsMapped}

-- The page is mapped to a frame of data that is in use.
abbrev pub HasFrame : Vm → ℕ → Type 0
HasFrame vm p =
    (f : ℕ) × (f < total_physical_pages)
    × (bit vm.physical_pages f ≡ 1)
    × IsData vm f
    × (directory_word vm (p * 4096) ≢ 0)
    × (entry_of vm (p * 4096) ≡ frame_address vm f)

-- Every page that was handed out has a frame of its own.
pub record IsOwned (vm : Vm) : Type 0 where
  pub laid_out : IsLaidOut vm
  pub coherent : IsCoherent vm
  pub pages_whole : IsBytes vm.virtual_pages
  pub pages_size : vm.virtual_pages.size ≡ total_virtual_pages / 8
  pub zero_used : bit vm.virtual_pages 0 ≡ 1
  pub has_frame :
      (p : ℕ) → 0 < p → p < total_virtual_pages → bit vm.virtual_pages p ≡ 1 → HasFrame vm p
  pub distinct :
      (p q : ℕ)
      → 0 < p
      → p < total_virtual_pages
      → 0 < q
      → q < total_virtual_pages
      → bit vm.virtual_pages p ≡ 1
      → bit vm.virtual_pages q ≡ 1
      → p ≢ q
      → entry_of vm (p * 4096) ≢ entry_of vm (q * 4096)

-- A page whose entry and frame are kept.
Kept-HasFrame :
    (vm vm' : Vm) (p : ℕ)
    → Kept vm vm'
    → p < total_virtual_pages
    → (h : HasFrame vm p) → bit vm'.physical_pages (h.0) ≡ 1
    → HasFrame vm' p
Kept-HasFrame vm vm' p k lt (f, hf, used, dat, there, entry) still =
    let e = k.entries (p * 4096) (omega arith) there in
    (f, hf, still, k.keeps_data f dat, e.0, omega (arith, e.1, entry, k.same_base))

-- The tables are kept, and the bitmaps.
pub Kept-IsOwned :
    (vm vm' : Vm)
    → Kept vm vm'
    → vm'.virtual_pages ≡ vm.virtual_pages
    → vm'.physical_pages ≡ vm.physical_pages
    → IsOwned vm
    → IsOwned vm'
Kept-IsOwned vm vm' k pages frames o =
    let same : (p : ℕ) → bit vm'.virtual_pages p ≡ 1 → bit vm.virtual_pages p ≡ 1 =
      λ p used. ap (λ b. bit b p) (sym pages) ∙ used in
    record {
      laid_out = k.laid_out;
      coherent = k.coherent;
      pages_whole = subst IsBytes (sym pages) o.pages_whole;
      pages_size = ap (λ b. b.size) pages ∙ o.pages_size;
      zero_used = ap (λ b. bit b 0) pages ∙ o.zero_used;
      has_frame = λ p lo hi used.
          let h = o.has_frame p lo hi (same p used) in
          Kept-HasFrame vm vm' p k hi h (ap (λ b. bit b h.0) frames ∙ h.2);
      distinct = λ p q lo hi lo' hi' used used' ne z.
          let (f, hf, uf, dat, there, e) = o.has_frame p lo hi (same p used) in
          let (g, hg, ug, dat', there', e') = o.has_frame q lo' hi' (same q used') in
          o.distinct p q lo hi lo' hi' (same p used) (same q used') ne (
            sym (k.entries (p * 4096) (omega arith) there).1
            ∙ z
            ∙ (k.entries (q * 4096) (omega arith) there').1);
    }

-- A page and its frame are free again.
pub freed-IsOwned :
    (vm vm' : Vm) (p f : ℕ)
    → Kept vm vm'
    → 0 < p
    → p < total_virtual_pages
    → bit vm.virtual_pages p ≡ 1
    → entry_of vm (p * 4096) ≡ frame_address vm f
    → Marks 0 vm.virtual_pages p vm'.virtual_pages
    → Marks 0 vm.physical_pages f vm'.physical_pages
    → IsOwned vm
    → IsOwned vm'
freed-IsOwned vm vm' p f k lo hi used entry pages frames o =
    let old : (q : ℕ) → bit vm'.virtual_pages q ≡ 1 → (p ≢ q) × (bit vm.virtual_pages q ≡ 1) =
      λ q u. (λ z. ground (arith, pages.bits q), ground (arith, pages.bits q)) in
    record {
      laid_out = k.laid_out;
      coherent = k.coherent;
      pages_whole = pages.whole;
      pages_size = pages.same_size ∙ o.pages_size;
      zero_used = ground (arith, pages.bits 0, o.zero_used);
      has_frame = λ q lo' hi' u.
          let (ne, before) = old q u in
          let h = o.has_frame q lo' hi' before in
          let apart : f ≢ h.0 = λ z.
            o.distinct p q lo hi lo' hi' used before ne
              (entry ∙ ap (frame_address vm) z ∙ sym h.5) in
          Kept-HasFrame vm vm' q k hi' h (ground (arith, frames.bits h.0, h.2));
      distinct = λ q r lo' hi' lo'' hi'' u u' ne z.
          let before = (old q u).1 in
          let before' = (old r u').1 in
          let there = (o.has_frame q lo' hi' before).4 in
          let there' = (o.has_frame r lo'' hi'' before').4 in
          o.distinct q r lo' hi' lo'' hi'' before before' ne (
            sym (k.entries (q * 4096) (omega arith) there).1
            ∙ z
            ∙ (k.entries (r * 4096) (omega arith) there').1);
    }

-- A page is handed out and mapped to a fresh frame.
module _ (vm vm' : Vm) (p : ℕ) (hp : p < total_virtual_pages) (free : bit vm.virtual_pages p ≡ 0)
    (filled : Filled vm.virtual_pages p 1 vm'.virtual_pages)
    (m : IsMapped (record vm { virtual_pages = vm'.virtual_pages }) vm' p 1) (o : IsOwned vm) where
  was_used : (q : ℕ) → q ≢ p → bit vm'.virtual_pages q ≡ 1 → bit vm.virtual_pages q ≡ 1
  was_used q ne used = ground (arith, filled.bits q)

  new_frame : HasFrame vm' p
  new_frame =
      let z : (p + 0) * 4096 ≡ p * 4096 = omega arith in
      let (f, hf, was_free, used, dat, there, e) = m.fresh 0 (omega arith) in
      (f, hf, used, dat, rw z at there, omega (arith, rw z at e, m.same_base))

  old_entry :
      (q : ℕ)
      → q ≢ p
      → q < total_virtual_pages
      → directory_word vm (q * 4096) ≢ 0
      → (directory_word vm' (q * 4096) ≢ 0) × (entry_of vm' (q * 4096) ≡ entry_of vm (q * 4096))
  old_entry q ne hq there = m.keeps (q * 4096) (omega arith) there (omega arith)

  old_frame : (q : ℕ) → q ≢ p → q < total_virtual_pages → HasFrame vm q → HasFrame vm' q
  old_frame q ne hq (f, hf, used, dat, there, e) =
      let k = old_entry q ne hq there in
      (
        f,
        hf,
        m.stays_used f used,
        m.keeps_data f used (record { behind = dat.behind; no_table = dat.no_table }),
        k.0,
        omega (arith, k.1, e, m.same_base),
      )

  -- The new frame was free, and the others were not.
  fresh_apart :
      (q : ℕ)
      → q ≢ p
      → q < total_virtual_pages
      → HasFrame vm q
      → entry_of vm' (p * 4096) ≢ entry_of vm' (q * 4096)
  fresh_apart q ne hq (g, hg, used, dat, there, e) z =
      let w : (p + 0) * 4096 ≡ p * 4096 = omega arith in
      let (f, hf, was_free, used', dat', there', e') = m.fresh 0 (omega arith) in
      let k = old_entry q ne hq there in
      let same : f ≡ g = omega (arith, rw w at e', k.1, e, z) in
      omega (arith, was_free, used, ap (λ (i : ℕ). bit vm.physical_pages i) same)

  pub allocated-IsOwned : IsOwned vm'
  allocated-IsOwned = record {
    laid_out = m.laid_out;
    coherent = m.coherent;
    pages_whole = filled.whole;
    pages_size = filled.same_size ∙ o.pages_size;
    zero_used = ground (arith, filled.bits 0, o.zero_used);
    has_frame = λ q lo hi used. elim (ℕ_discrete q p) [
      | yes same ↦ subst (HasFrame vm') (sym same) new_frame
      | no ne ↦ old_frame q ne hi (o.has_frame q lo hi (was_used q ne used))
    ];
    distinct = λ q r lo hi lo' hi' used used' ne z. elim (ℕ_discrete q p) [
      | yes same ↦
          let other : r ≢ p = λ y. ne (same ∙ sym y) in
          fresh_apart r other hi' (o.has_frame r lo' hi' (was_used r other used'))
            (ap (λ (i : ℕ). entry_of vm' (i * 4096)) (sym same) ∙ z)
      | no ne' ↦ elim (ℕ_discrete r p) [
        | yes same ↦
            fresh_apart q ne' hi (o.has_frame q lo hi (was_used q ne' used))
              (ap (λ (i : ℕ). entry_of vm' (i * 4096)) (sym same) ∙ sym z)
        | no other ↦
            let before = was_used q ne' used in
            let before' = was_used r other used' in
            o.distinct q r lo hi lo' hi' before before' ne (
              sym (old_entry q ne' hi (o.has_frame q lo hi before).4).1
              ∙ z
              ∙ (old_entry r other hi' (o.has_frame r lo' hi' before').4).1)
      ]
    ];
  }
