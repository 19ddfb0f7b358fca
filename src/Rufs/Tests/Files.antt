-- ===== src/Rufs/Tests/Files.antt =====
-- Runs of the FUSE calls of project4/rufs.c on a disk with a file.
use cs.Prelude.{
  ℕ, zero, suc, ◌+◌, ◌*◌, ◌/◌, ◌<◌, ◌≡◌, refl, ap, ◌≢◌, true, false, ◌||◌, some, List, [], ◌∷◌,
  arith, ltb, ◌==◌, ==_iff, update, ok, length, holds_below, holds_below_at, ◌≤◌,
}
use cs.Memory.{Mem, load_word, store_word}
use cs.Rufs.Disk.{Disk, opened, bio_read}
use cs.Rufs.Alloc.{Superblock}
use cs.Rufs.Inodes.{readi, inode_block, inode_offset}
use cs.Rufs.Directory.{
  load_half, direct_ptr, same_string, entry_matches, first_entry, first_in_blocks, entry_of_block,
  dir_find, tokens,
}
use cs.Rufs.Directory.Paths.{walk, arrived, down}
use cs.Rufs.Fuse.{int_of}
use cs.Rufs.Fuse.Transfer.{byte_at, rufs_read, rufs_write, blocks_for}
use cs.Rufs.Fuse.Transfer.Rounds.{IsApart}
use cs.Rufs.Fuse.Transfer.OneBlock.{HasBlock}
use cs.Rufs.Fuse.Transfer.RoundTrip.{rufs_read-rufs_write}
use cs.Rufs.Fuse.{Fresh}
use cs.Rufs.Fuse.Transfer.Repeats.{HasBlocks, rufs_write-repeats}
use cs.Rufs.Directory.Paths.{get_node_by_path-Resolves}

abbrev super : Superblock
super = record {
  magic_num = 23610;
  max_inum = 1024;
  max_dnum = 16384;
  i_bitmap_blk = 1;
  d_bitmap_blk = 2;
  i_start_blk = 3;
  d_start_blk = 67;
}

-- The root, inode 1, has the block 100, in which the first entry is that of "a", the inode 2. The
-- file has the blocks 101 and 102.
abbrev file_bytes : Mem
file_bytes =
    let root = store_word (update (λ _. 0) 12544 1) 12560 100 in
    let file = store_word (store_word (update root 12800 2) 12816 101) 12820 102 in
    update (update (update (update file 409600 2) 409602 1) 409604 97) 409854 1

abbrev disk : Disk
disk = record { bytes = file_bytes; blocks = 8192; diskfile = opened }

abbrev a_path : List ℕ
a_path = 47 ∷ 97 ∷ []

a_block :
    (k : ℕ)
    → k < 16
    → ((direct_ptr (readi super disk 1) k == 100) || (direct_ptr (readi super disk 1) k == 0))
      ≡ true
unfolding direct_ptr readi load_word store_word bio_read inode_block inode_offset holds_below
a_block k lt =
    holds_below_at 16
      (λ i. (direct_ptr (readi super disk 1) i == 100) || (direct_ptr (readi super disk 1) i == 0))
      k refl lt

apart_of : (x : ℕ) → ((x == 100) || (x == 0)) ≡ true → (x ≢ 101) × (x ≢ 3)
apart_of x e = (λ z. ground arith, λ z. ground arith)

root-IsApart : IsApart super disk 2 101 1
unfolding inode_block
root-IsApart = record {
  inode_apart = λ z. omega arith;
  blocks_apart = λ k lt there. apart_of (direct_ptr (readi super disk 1) k) (a_block k lt);
}

a_found : dir_find super disk 1 (97 ∷ []) 1 ≡ (0, some (entry_of_block (bio_read disk 100).1 0))
unfolding dir_find first_in_blocks first_entry entry_matches load_half same_string direct_ptr readi
    load_word store_word bio_read inode_block inode_offset
a_found = refl

a_number : load_half (entry_of_block (bio_read disk 100).1 0) 0 ≡ 2
unfolding load_half bio_read store_word
a_number = refl

a-HasBlock : HasBlock super disk a_path 0 2 101
unfolding tokens load_half readi bio_read direct_ptr load_word store_word inode_block inode_offset
a-HasBlock = record {
  is_opened = refl;
  at_path =
      walk refl
        (down (entry_of_block (bio_read disk 100).1 0) root-IsApart a_found (arrived a_number));
  own_number = refl;
  in_range = omega arith;
  pointer = refl;
  is_block = λ z. omega arith;
  inode_apart = λ z. omega arith;
}

rufs_read-rufs_write_example :
    (d : Disk) × (m : Mem) × (rufs_write super 7 a_path (104 ∷ 105 ∷ []) 2 0 disk
      ≡ ok (int_of 2, d))
    × (rufs_read super d (λ _. 9) a_path 2 0 ≡ ok (int_of 2, m))
    × ((k : ℕ) → k < 2 → m k ≡ byte_at (104 ∷ 105 ∷ []) k)
rufs_read-rufs_write_example =
    rufs_read-rufs_write super 7 (λ _. 9) a_path (104 ∷ 105 ∷ []) 2 0 2 101 disk a-HasBlock refl
      (omega arith) (omega arith) (omega arith)

abbrev fresh : Fresh
fresh = record { inode = λ _. 9; entries = λ _ _. 9; uid = 1000; gid = 1000; now = 7 }

-- A string of bytes that are all 120.
letters : ℕ → List ℕ
letters zero = []
letters (suc n) = 120 ∷ letters n

length-letters : (n : ℕ) → length (letters n) ≡ n
unfolding letters
length-letters zero = refl
length-letters (suc n) = ap suc (length-letters n)

file_blocks : (k : ℕ) → k < 2 → direct_ptr (readi super disk 2) k ≡ 101 + k
unfolding direct_ptr readi load_word store_word bio_read inode_block inode_offset holds_below
file_blocks k lt =
    (==_iff (direct_ptr (readi super disk 2) k) (101 + k)).0
      (holds_below_at 2 (λ i. direct_ptr (readi super disk 2) i == 101 + i) k refl lt)

not_inode : (k : ℕ) → k < 16 → (direct_ptr (readi super disk 2) k == 3) ≡ false
unfolding direct_ptr readi load_word store_word bio_read inode_block inode_offset holds_below
not_inode k lt = to_false (direct_ptr (readi super disk 2) k) (
    holds_below_at 16
      (λ i. (direct_ptr (readi super disk 2) i == 0) || ltb 100 (direct_ptr (readi super disk 2) i))
      k refl lt)
  where
    to_false : (x : ℕ) → ((x == 0) || ltb 100 x) ≡ true → (x == 3) ≡ false
    to_false x e = ground arith

a-HasBlocks : HasBlocks (readi super disk 2) 0 2
a-HasBlocks = record {
  in_range = omega arith;
  allocated = λ k lo hi. omega (arith, file_blocks k hi);
  distinct = λ k l lo lt hi. omega (arith, file_blocks k (omega arith), file_blocks l hi);
}

rufs_write-repeats_example :
    (d : Disk) × (rufs_write super 7 a_path (letters 4099) 4099 0 disk ≡ ok (int_of 4099, d))
    × ((j x : ℕ)
        → x < 4096
        → 4096 * j + x < 4099
        → (bio_read d (direct_ptr (readi super disk 2) (0 / 4096 + j))).1 x
          ≡ byte_at (letters 4099) x)
    × ((c x : ℕ)
        → ((k : ℕ)
            → 0 / 4096 ≤ k
            → k < 0 / 4096 + blocks_for 4099
            → c ≢ direct_ptr (readi super disk 2) k)
        → c ≢ inode_block super 2
        → x < 4096
        → (bio_read d c).1 x ≡ (bio_read disk c).1 x)
unfolding load_half readi bio_read store_word inode_block inode_offset
rufs_write-repeats_example =
    rufs_write-repeats super 7 a_path (letters 4099) 4099 0 2 disk refl
      (get_node_by_path-Resolves super disk (IsApart super disk 2 101) a_path 2 a-HasBlock.at_path)
      refl refl a-HasBlocks (λ k lt. differ (direct_ptr (readi super disk 2) k) (not_inode k lt))
      (omega (arith, length-letters 4099))
  where
    differ : (x : ℕ) → (x == 3) ≡ false → x ≢ 3
    differ x e z = ground arith
