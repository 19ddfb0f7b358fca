-- ===== src/Rufs/Directory/Keeping.antt =====
-- The blocks of a directory in which `dir_add` wrote an entry, seen by another name.
use cs.Prelude.{
  ℕ, ◌+◌, ◌-◌, ◌*◌, ◌≤◌, ◌<◌, ◌≡◌, sym, ap, ◌∙◌, ◌≢◌, ◌⊎◌, inl, inr, true, false, List, arith, ◌==◌,
  if◌then◌else◌, ==_iff, Bool-cases, length,
}
use mathlib.Core.Path.{subst}
use cs.Memory.{Mem}
use cs.Rufs.Disk.{Disk, bio_read}
use cs.Rufs.Alloc.{Superblock}
use cs.Rufs.Alloc.Takes.{disk_bit, Takes}
use cs.Rufs.Inodes.{readi, inode_block}
use cs.Rufs.Directory.{direct_ptr, no_block, load_half, entry_matches, clear_entries}
use cs.Rufs.Directory.Entries.{entry_matches-ext, Filled, clear_entries-invalid}
use cs.Rufs.Directory.Rewrites.{direct_ptr-ext, Rewritten}
use cs.Rufs.Directory.Adding.{invalid_differs}
use cs.Rufs.Directory.Others.{Alike, KeptAt, same_block, new_block}

-- The blocks of the directory are marked as used.
pub record BlockUsed (s : Superblock) (d : Disk) (b : ℕ) : Type 0 where
  pub in_data : b < s.d_start_blk + 16384
  pub marked : disk_bit d s.d_bitmap_blk (b - s.d_start_blk) ≡ 1

abbrev pub BlocksUsed : Superblock → Disk → ℕ → Type 0
BlocksUsed s d ino =
    (k : ℕ)
    → k < 16
    → direct_ptr (readi s d ino) k ≢ no_block
    → BlockUsed s d (direct_ptr (readi s d ino) k)

Alike-bytes :
    (m m' : Mem) (j : ℕ) (fname : List ℕ) (len : ℕ)
    → length fname < 250
    → ((x : ℕ) → 256 * j ≤ x → x < 256 * j + 256 → m' x ≡ m x)
    → Alike m m' j fname len
Alike-bytes m m' j fname len short same = record {
  matching = entry_matches-ext m' m j fname len short same;
  bytes = λ _. same;
}

module _ (s : Superblock) (d d1 d' : Disk) (ino j f_ino : ℕ) (fname : List ℕ) (n : ℕ)
    (inode base block : Mem) (b : ℕ) (w : Rewritten s d1 ino inode b block d')
    (f : Filled base j f_ino fname n block) (other : List ℕ) (len : ℕ) (short : length other < 250)
    (never : entry_matches block j other len ≡ false) where
  ptrs : (k : ℕ) → k < 16 → direct_ptr (readi s d' ino) k ≡ direct_ptr inode k
  ptrs k h = direct_ptr-ext (readi s d' ino) inode k h (λ x lo hi. w.inode_now x (omega arith))

  -- An entry of the block that was written.
  written-Alike :
      (i : ℕ)
      → i < 16
      → entry_matches base j other len ≡ false
      → Alike base (bio_read d' b).1 i other len
  written-Alike i lt was = elim (Bool-cases (i == j)) [
    | inl same ↦
        let e = (==_iff i j).0 same in
        record {
          matching =
              entry_matches-ext (bio_read d' b).1 block i other len short
                (λ x lo hi. w.block_now x (omega arith))
              ∙ ap (λ a. entry_matches block a other len) e
              ∙ never
              ∙ sym (ap (λ a. entry_matches base a other len) e ∙ was);
          bytes = λ match.
              absurd (differ (sym match ∙ ap (λ a. entry_matches base a other len) e ∙ was));
        }
    | inr ne ↦
        Alike-bytes base (bio_read d' b).1 i other len short
          (λ x lo hi. w.block_now x (omega arith) ∙ f.outside x (apart i j x ne lo hi))
  ]
    where
      differ : true ≢ false
      differ z = cc

      apart :
          (i j x : ℕ)
          → (i == j) ≡ false
          → 256 * i ≤ x
          → x < 256 * i + 256
          → (x < 256 * j) ⊎ (256 * j + 256 ≤ x)
      apart i j x ne lo hi = let ne' = unequal i j ne in omega arith
        where
          unequal : (x y : ℕ) → (x == y) ≡ false → x ≢ y
          unequal x y e z = ground arith

  -- The entry was free in a block of the directory.
  pub kept-free :
      base ≡ (bio_read d b).1
      → d1 ≡ d
      → load_half base (256 * j + 2) ≡ 0
      → ((k : ℕ) → k < 16 → direct_ptr inode k ≡ direct_ptr (readi s d ino) k)
      → ((k : ℕ)
          → k < 16
          → direct_ptr (readi s d ino) k ≢ no_block
          → direct_ptr (readi s d ino) k ≢ inode_block s ino)
      → (k : ℕ) → k < 16
      → KeptAt s d d' ino other len k
  kept-free is_base same_disk free old apart k lt =
      same_block (ptrs k lt ∙ old k lt) (λ there i lti.
        let c = direct_ptr (readi s d ino) k in
        elim (Bool-cases (c == b)) [
          | inl same ↦
              let e = (==_iff c b).0 same in
              subst (λ a. Alike (bio_read d a).1 (bio_read d' a).1 i other len) (sym e)
                (subst (λ m. Alike m (bio_read d' b).1 i other len) is_base
                  (written-Alike i lti (invalid_differs base j other len free)))
          | inr far ↦ Alike-bytes (bio_read d c).1 (bio_read d' c).1 i other len short (λ x lo hi.
              w.others c x (unequal c b far) (apart k lt there) (omega arith)
              ∙ ap (λ a. (bio_read a c).1 x) same_disk)
        ])
    where
      unequal : (x y : ℕ) → (x == y) ≡ false → x ≢ y
      unequal x y e z = ground arith

  -- The entry is the first of a new block, at the pointer `p`.
  pub kept-new :
      (fresh : Mem) (r p : ℕ)
      → base ≡ clear_entries fresh 0 16
      → Takes d s.d_bitmap_blk 2048 0 r d1
      → b ≡ r + s.d_start_blk
      → b ≢ no_block
      → direct_ptr (readi s d ino) p ≡ no_block
      → ((k : ℕ)
          → k < 16
          → direct_ptr inode k ≡ (if p == k then b else direct_ptr (readi s d ino) k))
      → ((k : ℕ)
          → k < 16
          → direct_ptr (readi s d ino) k ≢ no_block
          → (direct_ptr (readi s d ino) k ≢ inode_block s ino)
            × (s.d_start_blk ≤ direct_ptr (readi s d ino) k)
            × (s.d_bitmap_blk < s.d_start_blk))
      → BlocksUsed s d ino
      → j < 16
      → (k : ℕ) → k < 16
      → KeptAt s d d' ino other len k
  kept-new fresh r p is_base takes is_b there_b nothing ptr apart used ltj k lt =
      elim (Bool-cases (p == k)) [
        | inl same ↦
            let e : direct_ptr (readi s d' ino) k ≡ b =
              ptrs k lt ∙ ptr k lt ∙ ap (λ t. if t then b else direct_ptr (readi s d ino) k) same in
            new_block (ap (direct_ptr (readi s d ino)) (sym ((==_iff p k).0 same)) ∙ nothing)
              (λ z. there_b (sym e ∙ z))
              (λ i lti.
                ap (λ a. entry_matches (bio_read d' a).1 i other len) e
                ∙ (written-Alike i lti (invalid j ltj)).matching
                ∙ invalid i lti)
        | inr far ↦
            let c = direct_ptr (readi s d ino) k in
            same_block
              (ptrs k lt ∙ ptr k lt ∙ ap (λ t. if t then b else direct_ptr (readi s d ino) k) far)
              (λ there i lti.
                let (off_inode, ge, lo_bits) = apart k lt there in
                Alike-bytes (bio_read d c).1 (bio_read d' c).1 i other len short (λ x lo hi.
                  w.others c x
                    (λ z.
                      clash (disk_bit d s.d_bitmap_blk) c r s.d_start_blk (z ∙ is_b)
                        (used k lt there).marked takes.was_clear)
                    off_inode (omega arith)
                  ∙ takes.others c x (λ z. above c s.d_bitmap_blk s.d_start_blk z ge lo_bits)
                      (omega arith)))
      ]
    where
      invalid : (i : ℕ) → i < 16 → entry_matches base i other len ≡ false
      invalid i lti = invalid_differs base i other len (
          ap (λ m. load_half m (256 * i + 2)) is_base
          ∙ clear_entries-invalid fresh 0 16 i (omega arith) (omega arith))

      clash : (bits : ℕ → ℕ) (c r n : ℕ) → c ≡ r + n → bits (c - n) ≡ 1 → bits r ≢ 0
      clash bits c r n e set clear =
          let q : c - n ≡ r = omega arith in omega (arith, ap bits q, set, clear)

      above : (c x n : ℕ) → c ≡ x → n ≤ c → x < n → ⊥
      above c x n e le lt = omega arith
