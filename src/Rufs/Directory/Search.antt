-- ===== src/Rufs/Directory/Search.antt =====
-- What `dir_find` finds, and what `dir_add` does on a name that is there.
use cs.Prelude.{
  ℕ, zero, suc, ◌+◌, ◌≤◌, ◌<◌, ◌≡◌, refl, sym, ap, ◌∙◌, ◌≢◌, inl, inr, Bool, true, false, Option,
  none, some, List, arith, ◌==◌, ==_iff, Bool-cases, ok,
}
use cs.Memory.{Mem}
use cs.Rufs.Disk.{Disk, bio_read}
use cs.Rufs.Alloc.{Superblock}
use cs.Rufs.Inodes.{readi}
use cs.Rufs.Directory.{
  direct_ptr, no_block, entry_matches, first_entry, first_in_blocks, entry_of_block, enoent, eexist,
  dir_find, dir_add,
}

-- The first of the numbers from `j` to `j + n` that passes, or none where none does.
pub data FirstEntry (passes : ℕ → Bool) (j n : ℕ) (r : Option ℕ) : Type 0 where
  no_entry : ((k : ℕ) → j ≤ k → k < j + n → passes k ≡ false) → r ≡ none → FirstEntry passes j n r
  entry : (k : ℕ) → j ≤ k → k < j + n → passes k ≡ true → r ≡ some k → FirstEntry passes j n r

at_first :
    (passes : ℕ → Bool) (j n k : ℕ)
    → passes j ≡ false
    → ((k' : ℕ) → j + 1 ≤ k' → k' < j + 1 + n → passes k' ≡ false)
    → j ≤ k
    → k < j + suc n
    → passes k ≡ false
at_first passes j n k here later lo hi = elim (Bool-cases (j == k)) [
  | inl same ↦ ap passes (sym ((==_iff j k).0 same)) ∙ here
  | inr other ↦ later k (ground arith) (omega arith)
]

pub first_entry-FirstEntry :
    (passes : ℕ → Bool) (j n : ℕ) → FirstEntry passes j n (first_entry passes j n)
unfolding first_entry
first_entry-FirstEntry passes j zero = no_entry (λ k lo hi. absurd (omega arith)) refl
first_entry-FirstEntry passes j (suc n) = elim (Bool-cases (passes j)) [
  | inl yes_j ↦ entry j (omega arith) (omega arith) yes_j (rw yes_j refl)
  | inr no_j ↦ elim (first_entry-FirstEntry passes (j + 1) n) [
    | no_entry all e ↦ no_entry (λ k lo hi. at_first passes j n k no_j all lo hi) (rw no_j e)
    | entry k lo hi pass e ↦ entry k (omega arith) (omega arith) pass (rw no_j e)
  ]
]

-- No entry of the blocks from `i` to `i + n` passes, or one does and is found.
pub data FirstInBlocks (d : Disk) (inode : Mem) (passes : Mem → ℕ → Bool) (i n : ℕ)
    (r : Option (ℕ × ℕ)) : Type 0 where
  absent :
      ((k j : ℕ)
        → i ≤ k
        → k < i + n
        → direct_ptr inode k ≢ no_block
        → j < 16
        → passes (bio_read d (direct_ptr inode k)).1 j ≡ false)
      → r ≡ none
      → FirstInBlocks d inode passes i n r
  present :
      (k j : ℕ)
      → i ≤ k
      → k < i + n
      → direct_ptr inode k ≢ no_block
      → j < 16
      → passes (bio_read d (direct_ptr inode k)).1 j ≡ true
      → r ≡ some (direct_ptr inode k, j)
      → FirstInBlocks d inode passes i n r

module _ (d : Disk) (inode : Mem) (passes : Mem → ℕ → Bool) where
  abbrev None : ℕ → Type 0
  None k =
      direct_ptr inode k ≢ no_block
      → (j : ℕ) → j < 16
      → passes (bio_read d (direct_ptr inode k)).1 j ≡ false

  later :
      (i n : ℕ) {r r' : Option (ℕ × ℕ)}
      → None i
      → r ≡ r'
      → FirstInBlocks d inode passes (i + 1) n r'
      → FirstInBlocks d inode passes i (suc n) r
  later i n here q (absent all e) =
      absent
        (λ k j lo hi there lt. elim (Bool-cases (i == k)) [
          | inl same ↦
              let e' = sym ((==_iff i k).0 same) in
              ap (λ k'. passes (bio_read d (direct_ptr inode k')).1 j) e'
              ∙ here (λ z. there (ap (direct_ptr inode) e' ∙ z)) j lt
          | inr other ↦ all k j (ground arith) (omega arith) there lt
        ])
        (q ∙ e)
  later i n here q (present k j lo hi there lt pass e) =
      present k j (omega arith) (omega arith) there lt pass (q ∙ e)

  pub first_in_blocks-FirstInBlocks :
      (i n : ℕ) → FirstInBlocks d inode passes i n (first_in_blocks d inode passes i n)
  unfolding first_in_blocks
  first_in_blocks-FirstInBlocks i zero = absent (λ k j lo hi. absurd (omega arith)) refl
  first_in_blocks-FirstInBlocks i (suc n) = elim (Bool-cases (direct_ptr inode i == no_block)) [
    | inl no_b ↦
        later i n (λ there. absurd (there ((==_iff (direct_ptr inode i) no_block).0 no_b)))
          (rw no_b refl) (first_in_blocks-FirstInBlocks (i + 1) n)
    | inr is_b ↦ elim (first_entry-FirstEntry (passes (bio_read d (direct_ptr inode i)).1) 0 16) [
      | no_entry all e ↦
          later i n (λ _ j lt. all j (omega arith) (omega arith)) (rw (is_b, e) refl)
            (first_in_blocks-FirstInBlocks (i + 1) n)
      | entry j lo hi pass e ↦
          present i j (omega arith) (omega arith) (λ z. ne_of (direct_ptr inode i) no_block is_b z)
            (omega arith) pass (rw (is_b, e) refl)
    ]
  ]
    where
      ne_of : (x y : ℕ) → (x == y) ≡ false → x ≢ y
      ne_of x y e z = ground arith

-- What `dir_find` comes to.
pub data Finds (d : Disk) (inode : Mem) (fname : List ℕ) (len : ℕ) (r : ℕ × Option Mem)
    : Type 0 where
  no_such :
      ((k j : ℕ)
        → k < 16
        → direct_ptr inode k ≢ no_block
        → j < 16
        → entry_matches (bio_read d (direct_ptr inode k)).1 j fname len ≡ false)
      → r ≡ (enoent, none)
      → Finds d inode fname len r
  finds :
      (k j : ℕ)
      → k < 16
      → direct_ptr inode k ≢ no_block
      → j < 16
      → entry_matches (bio_read d (direct_ptr inode k)).1 j fname len ≡ true
      → r ≡ (0, some (entry_of_block (bio_read d (direct_ptr inode k)).1 j))
      → Finds d inode fname len r

-- `dir_find` looks at every entry of every block of the directory: it gives ENOENT where no valid
-- entry has the name and the length, and else such an entry.
pub dir_find-Finds :
    (s : Superblock) (d : Disk) (ino : ℕ) (fname : List ℕ) (len : ℕ)
    → Finds d (readi s d ino) fname len (dir_find s d ino fname len)
unfolding dir_find
dir_find-Finds s d ino fname len =
    elim (first_in_blocks-FirstInBlocks d (readi s d ino)
      (λ block j. entry_matches block j fname len) 0 16) [
        | absent all e ↦
            no_such (λ k j lt there. all k j (omega arith) (omega arith) there)
              (rw (dir_find, e) refl)
        | present k j lo hi there lt pass e ↦
            finds k j (omega arith) there lt pass (rw (dir_find, e) refl)
      ]

-- Where `dir_find` finds a name in a directory, `dir_add` of that name to it gives EEXIST and
-- leaves the disk as it was.
pub dir_add_exists :
    (s : Superblock) (d : Disk) (fresh : Mem) (ino f_ino : ℕ) (fname : List ℕ) (len : ℕ)
    → (dir_find s d ino fname len).0 ≡ 0
    → dir_add s d fresh (readi s d ino) f_ino fname len ≡ ok (eexist, d)
unfolding dir_find dir_add
dir_add_exists s d fresh ino f_ino fname len found =
    elim (first_in_blocks-FirstInBlocks d (readi s d ino)
      (λ block j. entry_matches block j fname len) 0 16) [
        | absent all e ↦
            absurd (not_both (dir_find s d ino fname len).0 (rw (dir_find, e) refl) found)
        | present k j lo hi there lt pass e ↦ rw (dir_add, e) refl
      ]
  where
    not_both : (n : ℕ) → n ≡ 2 → n ≢ 0
    not_both n e z = omega arith
