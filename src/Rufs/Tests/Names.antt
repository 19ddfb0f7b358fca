-- ===== src/Rufs/Tests/Names.antt =====
-- A run of `dir_add` of project4/rufs.c on a root that has the entry ".".
use cs.Prelude.{
  ℕ, ◌-◌, ◌≡◌, refl, ap, ◌∙◌, ◌≢◌, inl, inr, List, [], ◌∷◌, ◌&&◌, arith, leb, ltb, ◌==◌,
  if◌then◌else◌, ==_iff, ok, Bool-cases, holds_below, holds_below_at, ◌<◌, ◌*◌, sym, ◌+◌,
}
use cs.Memory.{load_word}
use cs.Bitmap.Bits.{bit_of}
use cs.Rufs.Disk.{Disk, opened, bio_read}
use cs.Rufs.Alloc.Takes.{disk_bit}
use cs.Rufs.Inodes.{readi, inode_block, inode_offset}
use cs.Rufs.Directory.{
  direct_ptr, no_block, load_half, dir_find, dir_add, first_in_blocks, first_entry, entry_matches,
  same_string,
}
use cs.Rufs.Directory.WellFormed.{IsDirectory}
use cs.Rufs.Directory.Keeping.{BlocksUsed}
use cs.Rufs.Directory.Others.{nothing, more, SameFound}
use cs.Rufs.Directory.Frame.{dir_find_other-dir_add}
use mathlib.Core.Path.{subst}
use mathlib.Core.List.{Memᴰ}
use cs.Prelude.{pos}
use cs.Rufs.Directory.{get_node_by_path}
use cs.Rufs.Directory.Others.{NoZero}
use cs.Rufs.Fuse.Attributes.{rufs_readdir}
use cs.Rufs.Fuse.Listed.{Named}
use cs.Rufs.Fuse.Listing.{rufs_readdir-dir_find}
use cs.Rufs.Mkfs.{made_super}

-- The root has the block 100, which is marked as used, and in it the entry ".".
abbrev disk : Disk
disk = record {
  bytes = λ x.
      if leb 12564 x && ltb x 12624
      then 255
      else if x == 8196
      then 2
      else if x == 12560
      then 100
      else if x == 409604
      then 46
      else if x == 12544
      then 1
      else if x == 409600
      then 1
      else if x == 409602
      then 1
      else if x == 409854
      then 1
      else 0;
  blocks = 8192;
  diskfile = opened;
}

abbrev pointer_of : ℕ → ℕ
pointer_of k = if k == 0 then 100 else no_block

pointers : (k : ℕ) → k < 16 → direct_ptr (readi made_super disk 1) k ≡ pointer_of k
unfolding direct_ptr readi load_word bio_read inode_block inode_offset holds_below
pointers k lt =
    (==_iff (direct_ptr (readi made_super disk 1) k) (pointer_of k)).0
      (holds_below_at 16 (λ i. direct_ptr (readi made_super disk 1) i == pointer_of i) k refl lt)

in_use :
    (k : ℕ)
    → k < 16
    → direct_ptr (readi made_super disk 1) k ≢ no_block
    → direct_ptr (readi made_super disk 1) k ≡ 100
in_use k lt there = pointers k lt ∙ elim (Bool-cases (k == 0)) [
  | inl same ↦ rw same refl
  | inr far ↦ absurd (there (pointers k lt ∙ ap (λ t. if t then 100 else no_block) far))
]

root-IsDirectory : IsDirectory made_super disk 1
unfolding load_half readi bio_read inode_block inode_offset
root-IsDirectory = record {
  has_bitmap = record { is_opened = refl; whole = λ i. ground arith };
  own_number = refl;
  bitmap_first = omega arith;
  inode_first = omega arith;
  bitmap_apart = λ z. omega arith;
  few = omega arith;
  data_blocks = λ k lt there. omega (arith, in_use k lt there);
}

marked : disk_bit disk 2 33 ≡ 1
unfolding bio_read bit_of
marked = refl

root-BlocksUsed : BlocksUsed made_super disk 1
root-BlocksUsed k lt there =
    let e = in_use k lt there in
    record { in_data = omega (arith, e); marked = ap (λ b. disk_bit disk 2 (b - 67)) e ∙ marked }

not_zero : (x : ℕ) → x ≡ 2 → x ≢ 0
not_zero x e z = omega arith

no_a : (dir_find made_super disk 1 (97 ∷ []) 1).0 ≡ 2
unfolding dir_find first_in_blocks first_entry entry_matches same_string load_half direct_ptr readi
    load_word bio_read inode_block inode_offset
no_a = refl

dir_find_other-dir_add_example :
    (d : Disk) × (dir_add made_super disk (λ _. 9) (readi made_super disk 1) 7 (97 ∷ []) 1
      ≡ ok (0, d))
    × SameFound (dir_find made_super disk 1 (46 ∷ []) 1) (dir_find made_super d 1 (46 ∷ []) 1)
    × BlocksUsed made_super d 1
unfolding bio_read bit_of
dir_find_other-dir_add_example =
    dir_find_other-dir_add made_super disk (λ _. 9) 1 7 (97 ∷ []) (46 ∷ []) 1 1 9 1 root-IsDirectory
      root-BlocksUsed (not_zero (dir_find made_super disk 1 (97 ∷ []) 1).0 no_a) (omega arith)
      (omega arith) (omega arith) (omega arith) refl (omega arith) (pointers 1 (omega arith))
      (more (λ z. omega arith) nothing) (more (λ z. omega arith) nothing) apart (omega arith)
  where
    head : List ℕ → ℕ
    head [] = 0
    head (c ∷ cs) = c

    first_differs : (m n : ℕ) → m ≡ 46 → n ≡ 97 → m ≢ n
    first_differs m n e e' z = omega arith

    apart : ◌≢◌ {A = List ℕ} (46 ∷ []) (97 ∷ [])
    apart z = first_differs 46 97 refl refl (ap head z)

-- In the block 100 the entry 0 alone is valid, and byte 5 of it is zero.
one_entry :
    (i : ℕ) → i < 16 → load_half (bio_read disk 100).1 (256 * i + 2) ≡ (if i == 0 then 1 else 0)
unfolding load_half bio_read holds_below
one_entry i lt =
    (==_iff (load_half (bio_read disk 100).1 (256 * i + 2)) (if i == 0 then 1 else 0)).0 (
      holds_below_at 16
        (λ k. load_half (bio_read disk 100).1 (256 * k + 2) == (if k == 0 then 1 else 0)) i refl lt)

byte_five : (bio_read disk 100).1 5 ≡ 0
unfolding bio_read
byte_five = refl

block-Named : Named (bio_read disk 100).1
block-Named i lt valid = elim (Bool-cases (i == 0)) [
  | inl same ↦ (5, ground arith, omega arith, byte_five)
  | inr far ↦ absurd (
      clash (load_half (bio_read disk 100).1 (256 * i + 2)) valid
        (one_entry i lt ∙ ap (λ t. if t then 1 else 0) far))
]
  where
    clash : (n : ℕ) → n ≡ 1 → n ≢ 0
    clash n e z = omega arith

rufs_readdir-dir_find_example :
    (names : List (List ℕ)) × (rufs_readdir made_super disk (47 ∷ []) ≡ ok (pos 0, names))
    × ((fname : List ℕ) (len : ℕ)
        → NoZero fname
        → (dir_find made_super disk 1 fname len).0 ≡ 0
        → Memᴰ fname names)
    × ((fname : List ℕ)
        → Memᴰ fname names
        → (len : ℕ) × ((dir_find made_super disk 1 fname len).0 ≡ 0))
unfolding get_node_by_path
rufs_readdir-dir_find_example =
    rufs_readdir-dir_find made_super disk (47 ∷ []) 1 refl
      (λ k lt there. subst (λ b. Named (bio_read disk b).1) (sym (in_use k lt there)) block-Named)
