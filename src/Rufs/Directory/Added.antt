-- ===== src/Rufs/Directory/Added.antt =====
-- That `dir_find` finds what `dir_add` put in a directory.

use cs.Prelude.{
  ℕ, ◌*◌, ◌<◌, ◌≡◌, sym, ap, ◌∙◌, ◌≢◌, inl, inr, true, false, some, List, arith, ◌==◌, ==_iff,
  Bool-cases, length,
}
use cs.Memory.{Mem}
use cs.Rufs.Disk.{Disk, bio_read}
use cs.Rufs.Alloc.{Superblock}
use cs.Rufs.Inodes.{readi, inode_block}
use cs.Rufs.Directory.{direct_ptr, no_block, load_half, entry_matches, entry_of_block, dir_find}
use cs.Rufs.Directory.Search.{no_such, finds, dir_find-Finds}
use cs.Rufs.Directory.Entries.{half-ext, entry_matches-ext, Filled}
use cs.Rufs.Directory.Rewrites.{direct_ptr-ext, Rewritten}

-- In the directory one entry has the name: `j` of the block `b`.
pub record HasEntry (s : Superblock) (d : Disk) (ino f_ino : ℕ) (fname : List ℕ) (len b k j : ℕ)
    : Type 0 where
  pub pointer : direct_ptr (readi s d ino) k ≡ b
  pub is_block : b ≢ no_block
  pub in_inode : k < 16
  pub in_block : j < 16
  pub matches : entry_matches (bio_read d b).1 j fname len ≡ true
  pub number : load_half (bio_read d b).1 (256 * j) ≡ f_ino
  pub unique :
      (k' j' : ℕ)
      → k' < 16
      → direct_ptr (readi s d ino) k' ≢ no_block
      → j' < 16
      → entry_matches (bio_read d (direct_ptr (readi s d ino) k')).1 j' fname len ≡ true
      → (direct_ptr (readi s d ino) k' ≡ b) × (j' ≡ j)

entry_of_block-number : (m : Mem) (j : ℕ) → load_half (entry_of_block m j) 0 ≡ load_half m (256 * j)
unfolding load_half
entry_of_block-number m j = ground arith

-- Such an entry is what `dir_find` gives.
pub dir_find-HasEntry :
    (s : Superblock) (d : Disk) (ino f_ino : ℕ) (fname : List ℕ) (len b k j : ℕ)
    → HasEntry s d ino f_ino fname len b k j
    → (e : Mem) × (dir_find s d ino fname len ≡ (0, some e)) × (load_half e 0 ≡ f_ino)
dir_find-HasEntry s d ino f_ino fname len b k j h = elim (dir_find-Finds s d ino fname len) [
  | no_such all e ↦
      let here : entry_matches (bio_read d (direct_ptr (readi s d ino) k)).1 j fname len ≡ true =
        ap (λ c. entry_matches (bio_read d c).1 j fname len) h.pointer ∙ h.matches in
      absurd
        (differ (sym here ∙ all k j h.in_inode (λ z. h.is_block (sym h.pointer ∙ z)) h.in_block))
  | finds k' j' lt there lt' pass e ↦
      let (same, same_j) = h.unique k' j' lt there lt' pass in
      (
        entry_of_block (bio_read d (direct_ptr (readi s d ino) k')).1 j',
        e,
        entry_of_block-number (bio_read d (direct_ptr (readi s d ino) k')).1 j'
            ∙ ap (λ c. load_half (bio_read d c).1 (256 * j')) same
            ∙ ap (λ i. load_half (bio_read d b).1 (256 * i)) same_j
            ∙ h.number,
      )
]
  where
    differ : true ≢ false
    differ z = cc

-- No entry of the directory has the name.
abbrev pub NoEntry : Superblock → Disk → ℕ → List ℕ → ℕ → Type 0
NoEntry s d ino fname len =
    (k j : ℕ)
    → k < 16
    → direct_ptr (readi s d ino) k ≢ no_block
    → j < 16
    → entry_matches (bio_read d (direct_ptr (readi s d ino) k)).1 j fname len ≡ false

-- The name was written as the entry `j` of the block `b`, in which no other entry has it, and no
-- other block of the directory has it.
module _ (s : Superblock) (d d' : Disk) (ino f_ino : ℕ) (fname : List ℕ) (len b k j : ℕ)
    (inode base block : Mem) (w : Rewritten s d ino inode b block d')
    (f : Filled base j f_ino fname len block) (short : length fname < 250) where
  ptrs : (i : ℕ) → i < 16 → direct_ptr (readi s d' ino) i ≡ direct_ptr inode i
  ptrs i h = direct_ptr-ext (readi s d' ino) inode i h (λ x lo hi. w.inode_now x (omega arith))

  in_b :
      (i : ℕ)
      → i < 16
      → entry_matches (bio_read d' b).1 i fname len ≡ entry_matches block i fname len
  in_b i h =
      entry_matches-ext (bio_read d' b).1 block i fname len short
        (λ x lo hi. w.block_now x (omega arith))

  in_base : (i : ℕ) → i ≢ j → entry_matches block i fname len ≡ entry_matches base i fname len
  in_base i ne =
      entry_matches-ext block base i fname len short (λ x lo hi. f.outside x (omega arith))

  abbrev Others : Type 0
  Others =
      ((i : ℕ) → i < 16 → i ≢ j → entry_matches base i fname len ≡ false)
      × ((k' i : ℕ)
          → k' < 16
          → direct_ptr inode k' ≢ no_block
          → direct_ptr inode k' ≢ b
          → i < 16
          → (direct_ptr inode k' ≢ inode_block s ino)
            × (entry_matches (bio_read d (direct_ptr inode k')).1 i fname len ≡ false))

  only :
      (k' i : ℕ)
      → k' < 16
      → i < 16
      → Others
      → direct_ptr inode k' ≢ no_block
      → entry_matches (bio_read d' (direct_ptr inode k')).1 i fname len ≡ true
      → (direct_ptr inode k' ≡ b) × (i ≡ j)
  only k' i h hi (others, away) there pass = elim (Bool-cases (direct_ptr inode k' == b)) [
    | inl same' ↦
        let same = (==_iff (direct_ptr inode k') b).0 same' in
        elim (Bool-cases (i == j)) [
          | inl here ↦ (same, (==_iff i j).0 here)
          | inr ne' ↦
              let ne = unequal i j ne' in
              absurd (
                differ (
                  sym pass
                  ∙ ap (λ c. entry_matches (bio_read d' c).1 i fname len) same
                  ∙ in_b i hi
                  ∙ in_base i ne
                  ∙ others i hi ne))
        ]
    | inr far' ↦
        let (apart, miss) = away k' i h there (unequal (direct_ptr inode k') b far') hi in
        absurd (
          differ (
            sym pass
            ∙ entry_matches-ext (bio_read d' (direct_ptr inode k')).1
                (bio_read d (direct_ptr inode k')).1 i fname len short
                (λ x lo up.
                  w.others (direct_ptr inode k') x (unequal (direct_ptr inode k') b far') apart
                    (omega arith))
            ∙ miss))
  ]
    where
      unequal : (x y : ℕ) → (x == y) ≡ false → x ≢ y
      unequal x y e z = ground arith

      differ : true ≢ false
      differ z = cc

  pub entry_written :
      j < 16
      → k < 16
      → direct_ptr inode k ≡ b
      → b ≢ no_block
      → Others
      → HasEntry s d' ino f_ino fname len b k j
  entry_written lt ltk ptr is_b rest = record {
    pointer = ptrs k ltk ∙ ptr;
    is_block = is_b;
    in_inode = ltk;
    in_block = lt;
    matches = in_b j lt ∙ f.matches;
    number =
        half-ext (bio_read d' b).1 block (256 * j) (w.block_now _ (omega arith))
          (w.block_now _ (omega arith))
        ∙ f.number;
    unique = λ k' i h hi_there hi pass.
        let q = ptrs k' h in
        let (same, same_j) =
          only k' i h hi rest (λ z. hi_there (q ∙ z))
            (ap (λ c. entry_matches (bio_read d' c).1 i fname len) (sym q) ∙ pass) in
        (q ∙ same, same_j);
  }
