-- ===== src/Rufs/Directory/Entries.antt =====
-- What a filled entry of a block holds, and what it leaves of the block.
use cs.Prelude.{
  ℕ, zero, suc, ◌+◌, ◌*◌, ◌≤◌, ◌<◌, ◌≡◌, refl, sym, ap, ◌∙◌, ◌⊎◌, inl, inr, true, List, [], ◌∷◌,
  arith, ltb, ◌==◌, ==_iff, ==_refl, Bool-cases, update, ok, length,
}
use cs.Memory.{Mem}
use cs.Rufs.Directory.{
  load_half, store_half, same_string, copy_string, entry_matches, fill_entry, clear_entries,
}

pub half-store : (m : Mem) (a v : ℕ) → v < 65536 → load_half (store_half m a v) a ≡ v
unfolding load_half store_half
half-store m a v lt = ground arith

pub half-other : (m : Mem) (a v x : ℕ) → (x < a) ⊎ (a + 2 ≤ x) → store_half m a v x ≡ m x
unfolding store_half
half-other m a v x h = ground arith

pub half-ext :
    (m m' : Mem) (a : ℕ) → m a ≡ m' a → m (a + 1) ≡ m' (a + 1) → load_half m a ≡ load_half m' a
unfolding load_half
half-ext m m' a p q = rw (p, q) refl

-- The string that was copied stands at the address, and the bytes around it are as before.
record Copied (m : Mem) (a : ℕ) (cs : List ℕ) (m' : Mem) : Type 0 where
  run : copy_string m a cs ≡ ok m'
  same : same_string m' a cs ≡ true
  below : (x : ℕ) → x < a → m' x ≡ m x
  behind : (x : ℕ) → a + length cs < x → m' x ≡ m x

copy_string-Copied :
    (m : Mem) (a : ℕ) (cs : List ℕ) → a + length cs < 4096 → (m' : Mem) × Copied m a cs m'
unfolding copy_string same_string
copy_string-Copied m a [] fits = (
  update m a 0,
  record {
    run = ground arith;
    same = ground arith;
    below = λ x lt. ground arith;
    behind = λ x lt. ground arith;
  },
)
copy_string-Copied m a (c ∷ cs) fits =
    let (m', r) = copy_string-Copied (update m a c) (a + 1) cs (omega arith) in
    let here : m' a ≡ c = r.below a (omega arith) ∙ ground arith in
    let inside : ltb a 4096 ≡ true = ground arith in
    (
      m',
      record {
        run = rw inside r.run;
        same = rw (here, r.same, ==_refl c) refl;
        below = λ x lt. r.below x (omega arith) ∙ ground arith;
        behind = λ x lt. r.behind x (omega arith) ∙ ground arith;
      },
    )

pub same_string-ext :
    (m m' : Mem) (a : ℕ) (cs : List ℕ)
    → ((x : ℕ) → a ≤ x → x ≤ a + length cs → m x ≡ m' x)
    → same_string m a cs ≡ same_string m' a cs
unfolding same_string
same_string-ext m m' a [] h = rw (h a (omega arith) (omega arith)) refl
same_string-ext m m' a (c ∷ cs) h =
    rw
      (
        h a (omega arith) (omega arith),
        same_string-ext m m' (a + 1) cs (λ x lo hi. h x (omega arith) (omega arith)),
      )
      refl

-- Blocks that agree on an entry agree on whether it matches.
pub entry_matches-ext :
    (m m' : Mem) (j : ℕ) (fname : List ℕ) (len : ℕ)
    → length fname < 250
    → ((x : ℕ) → 256 * j ≤ x → x < 256 * j + 256 → m x ≡ m' x)
    → entry_matches m j fname len ≡ entry_matches m' j fname len
unfolding entry_matches
entry_matches-ext m m' j fname len short h =
    rw
      (
        half-ext m m' (256 * j + 2) (h _ (omega arith) (omega arith))
            (h _ (omega arith) (omega arith)),
        half-ext m m' (256 * j + 254) (h _ (omega arith) (omega arith))
            (h _ (omega arith) (omega arith)),
        same_string-ext m m' (256 * j + 4) fname (λ x lo hi. h x (omega arith) (omega arith)),
      )
      refl

-- The entry `j` is filled.
pub record Filled (block : Mem) (j f_ino : ℕ) (fname : List ℕ) (len : ℕ) (block' : Mem)
    : Type 0 where
  pub run : fill_entry block j f_ino fname len ≡ ok block'
  pub matches : entry_matches block' j fname len ≡ true
  pub number : load_half block' (256 * j) ≡ f_ino
  pub outside : (x : ℕ) → (x < 256 * j) ⊎ (256 * j + 256 ≤ x) → block' x ≡ block x

fill_steps :
    (block m : Mem) (j f_ino : ℕ) (fname : List ℕ) (len : ℕ)
    → copy_string
        (store_half (store_half block (256 * j + 2) 1) (256 * j) f_ino)
        (256 * j + 4)
        fname
      ≡ ok m
    → fill_entry block j f_ino fname len ≡ ok (store_half m (256 * j + 254) len)
unfolding fill_entry
fill_steps block m j f_ino fname len run = rw run refl

filled_matches :
    (m : Mem) (j : ℕ) (fname : List ℕ) (len : ℕ)
    → load_half m (256 * j + 2) ≡ 1
    → load_half m (256 * j + 254) ≡ len
    → same_string m (256 * j + 4) fname ≡ true
    → entry_matches m j fname len ≡ true
unfolding entry_matches
filled_matches m j fname len valid size name = rw (valid, size, name, ==_refl len) refl

pub fill_entry-Filled :
    (block : Mem) (j f_ino : ℕ) (fname : List ℕ) (len : ℕ)
    → j < 16
    → f_ino < 65536
    → len < 65536
    → length fname < 250
    → (block' : Mem) × Filled block j f_ino fname len block'
fill_entry-Filled block j f_ino fname len lt small fits short =
    let m1 = store_half block (256 * j + 2) 1 in
    let m2 = store_half m1 (256 * j) f_ino in
    let (m3, c) = copy_string-Copied m2 (256 * j + 4) fname (omega arith) in
    let m4 = store_half m3 (256 * j + 254) len in
    let low : (x : ℕ) → x < 256 * j + 4 → m4 x ≡ m2 x =
      λ x h. half-other m3 (256 * j + 254) len x (inl (omega arith)) ∙ c.below x (omega arith) in
    (
      m4,
      record {
        run = fill_steps block m3 j f_ino fname len c.run;
        matches =
            filled_matches m4 j fname len
              (half-ext m4 m1 (256 * j + 2)
                  (low _ (omega arith) ∙ half-other m1 (256 * j) f_ino _ (inr (omega arith)))
                  (low _ (omega arith) ∙ half-other m1 (256 * j) f_ino _ (inr (omega arith)))
                ∙ half-store block (256 * j + 2) 1 (omega arith))
              (half-store m3 (256 * j + 254) len fits)
              (same_string-ext m4 m3 (256 * j + 4) fname
                  (λ x lo hi. half-other m3 (256 * j + 254) len x (inl (omega arith)))
                ∙ c.same);
        number =
            half-ext m4 m2 (256 * j) (low _ (omega arith)) (low _ (omega arith))
            ∙ half-store m1 (256 * j) f_ino small;
        outside =
            λ x out. around block m3 (256 * j) f_ino fname len x short out (c.below x) (c.behind x);
      },
    )
  where
    around :
        (block m3 : Mem) (e f_ino : ℕ) (fname : List ℕ) (len x : ℕ)
        → length fname < 250
        → (x < e) ⊎ (e + 256 ≤ x)
        → (x < e + 4 → m3 x ≡ store_half (store_half block (e + 2) 1) e f_ino x)
        → (e + 4 + length fname < x → m3 x ≡ store_half (store_half block (e + 2) 1) e f_ino x)
        → store_half m3 (e + 254) len x ≡ block x
    around block m3 e f_ino fname len x short (inl lo) p q =
        half-other m3 (e + 254) len x (inl (omega arith))
        ∙ p (omega arith)
        ∙ half-other (store_half block (e + 2) 1) e f_ino x (inl lo)
        ∙ half-other block (e + 2) 1 x (inl (omega arith))
    around block m3 e f_ino fname len x short (inr hi) p q =
        half-other m3 (e + 254) len x (inr (omega arith))
        ∙ q (omega arith)
        ∙ half-other (store_half block (e + 2) 1) e f_ino x (inr (omega arith))
        ∙ half-other block (e + 2) 1 x (inr (omega arith))

clear_entries-below :
    (m : Mem) (i n a : ℕ) → a + 2 ≤ 256 * i + 2 → load_half (clear_entries m i n) a ≡ load_half m a
unfolding clear_entries
clear_entries-below m i zero a lo = refl
clear_entries-below m i (suc n) a lo =
    let m' = store_half m (256 * i + 2) 0 in
    clear_entries-below m' (i + 1) n a (omega arith)
    ∙ half-ext m' m a (half-other m (256 * i + 2) 0 a (inl (omega arith)))
        (half-other m (256 * i + 2) 0 (a + 1) (inl (omega arith)))

-- In a fresh block no entry is valid.
pub clear_entries-invalid :
    (m : Mem) (i n j : ℕ) → i ≤ j → j < i + n → load_half (clear_entries m i n) (256 * j + 2) ≡ 0
unfolding clear_entries
clear_entries-invalid m i zero j lo hi = absurd (omega arith)
clear_entries-invalid m i (suc n) j lo hi = elim (Bool-cases (i == j)) [
  | inl same ↦
      ap (λ k. load_half (clear_entries m i (suc n)) (256 * k + 2)) (sym ((==_iff i j).0 same))
      ∙ clear_entries-below (store_half m (256 * i + 2) 0) (i + 1) n (256 * i + 2) (omega arith)
      ∙ half-store m (256 * i + 2) 0 (omega arith)
  | inr other ↦
      clear_entries-invalid (store_half m (256 * i + 2) 0) (i + 1) n j (ground arith) (omega arith)
]
