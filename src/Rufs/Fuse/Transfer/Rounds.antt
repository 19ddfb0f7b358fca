-- ===== src/Rufs/Fuse/Transfer/Rounds.antt =====
-- Rounds of `rufs_write` on blocks that are there, and what the writes leave of other inodes and
-- blocks.
use cs.Prelude.{
  ℕ, suc, ◌+◌, ◌-◌, ◌*◌, ◌/◌, ◌%◌, ◌≤◌, ◌<◌, ◌≡◌, refl, sym, ap, ◌∙◌, ◌≢◌, inl, inr, true, false,
  some, List, arith, ltb, leb, ◌==◌, ==_iff, ==_of_ne, Bool-cases, ok, length,
}
use cs.Memory.{Mem, store_word}
use cs.Memory.Words.{load-store_apart}
use cs.Rufs.Disk.{Disk, opened, bio_read, bio_write}
use cs.Rufs.Disk.Blocks.{bio_read-bio_write_other, bio_read-ext}
use cs.Rufs.Alloc.{Superblock}
use cs.Rufs.Inodes.{readi, writei, inode_block}
use cs.Rufs.Inodes.RoundTrip.{readi-writei, readi-writei_other}
use cs.Rufs.Directory.{load_half, store_long, direct_ptr, no_block, get_node_by_path}
use cs.Rufs.Directory.Rewrites.{direct_ptr-ext, long-apart, bio_read-writei, readi-bio_write}
use cs.Rufs.Directory.Paths.{SameDirectory}
use cs.Rufs.Fuse.{int_of}
use cs.Rufs.Fuse.Transfer.{
  byte_at, bytes_in_block, overlay, with_block, write_blocks, grown, rounds_for, rufs_write,
}

-- A round on an index that has a block.
pub write_round :
    (s : Superblock) (temp : List ℕ) (n i off left : ℕ) (inode : Mem) (d : Disk)
    → i < 16
    → direct_ptr inode i ≢ no_block
    → bytes_in_block off left ≤ length temp + 1
    → write_blocks s temp (suc n) i off left inode d
      ≡ write_blocks s temp n
          (i + 1)
          0
          (left - bytes_in_block off left)
          inode
          (bio_write d
            (direct_ptr inode i)
            (overlay (bio_read d (direct_ptr inode i)).1 off temp (bytes_in_block off left))).1
unfolding write_blocks with_block
write_round s temp n i off left inode d lt there fits =
    let below : ltb i 16 ≡ true = ground arith in
    let has : (direct_ptr inode i == no_block) ≡ false =
      ==_of_ne (direct_ptr inode i) no_block there in
    let short : leb (bytes_in_block off left) (length temp + 1) ≡ true =
      fits_leb (bytes_in_block off left) (length temp + 1) fits in
    rw (write_blocks, below) (rw has (rw short refl))
  where
    fits_leb : (x y : ℕ) → x ≤ y → leb x y ≡ true
    fits_leb x y h = ground arith

pub overlay-inside :
    (block : Mem) (temp : List ℕ) (count k : ℕ)
    → k < count
    → overlay block 0 temp count k ≡ byte_at temp k
unfolding overlay
overlay-inside block temp count k lt = ground arith

pub grown_number : (m : Mem) (size now : ℕ) → load_half (grown m size now) 0 ≡ load_half m 0
unfolding load_half grown store_long store_word
grown_number m size now = ground arith

pub direct_ptr-grown :
    (m : Mem) (size now i : ℕ) → i < 16 → direct_ptr (grown m size now) i ≡ direct_ptr m i
unfolding direct_ptr grown
direct_ptr-grown m size now i lt =
    long-apart _ 200 now (16 + 4 * i) (inl (omega arith))
    ∙ long-apart _ 160 _ (16 + 4 * i) (inl (omega arith))
    ∙ load-store_apart m 4 _ (16 + 4 * i) (inr (omega arith))

-- The run of `rufs_write` once its loop is known.
pub write_steps :
    (s : Superblock) (now : ℕ) (path buffer : List ℕ) (size offset n : ℕ) (d d1 : Disk)
    → get_node_by_path s d path 1 ≡ (0, some (readi s d n))
    → load_half (readi s d n) 0 ≡ n
    → write_blocks s buffer
        (rounds_for size offset)
        (offset / 4096)
        (offset % 4096)
        size
        (readi s d n)
        d
      ≡ ok (readi s d n, d1)
    → rufs_write s now path buffer size offset d
      ≡ ok (int_of size, writei s d1 n (grown (readi s d n) size now))
unfolding rufs_write
write_steps s now path buffer size offset n d d1 found own run =
    rw (rufs_write, found)
      (rw run (
        ap (λ i. ok (int_of size, writei s d1 i (grown (readi s d n) size now)))
          (grown_number (readi s d n) size now ∙ own)))

-- The inode `i` and the blocks of its directory lie apart from the block `b` and the inode `n`.
pub record IsApart (s : Superblock) (d : Disk) (n b i : ℕ) : Type 0 where
  pub inode_apart : inode_block s i ≢ b
  pub blocks_apart :
      (k : ℕ)
      → k < 16
      → direct_ptr (readi s d i) k ≢ no_block
      → (direct_ptr (readi s d i) k ≢ b) × (direct_ptr (readi s d i) k ≢ inode_block s n)

-- After a write of the block `b` such a directory is the same.
pub block_write-SameDirectory :
    (s : Superblock) (d : Disk) (n b i : ℕ) (block : Mem)
    → d.diskfile ≡ opened
    → IsApart s d n b i
    → SameDirectory s d (bio_write d b block).1 i
block_write-SameDirectory s d n b i block op away = record {
  pointers = λ k lt.
      direct_ptr-ext (readi s (bio_write d b block).1 i) (readi s d i) k lt
        (λ x lo hi. readi-bio_write s d b block i x op away.inode_apart (omega arith));
  blocks = λ k lt there.
      let c = direct_ptr (readi s d i) k in
      bio_read-ext (bio_write d b block).1 d c c
        (λ x h. bio_read-bio_write_other d b c block x op (away.blocks_apart k lt there).0 h);
}

-- After a write of the inode `n` with the same pointers a directory is the same whose blocks lie
-- apart from the inode.
pub inode_write-SameDirectory :
    (s : Superblock) (d : Disk) (n b i : ℕ) (inode : Mem)
    → d.diskfile ≡ opened
    → ((k : ℕ) → k < 16 → direct_ptr inode k ≡ direct_ptr (readi s d n) k)
    → IsApart s d n b i
    → SameDirectory s d (writei s d n inode) i
inode_write-SameDirectory s d n b i inode op same away = record {
  pointers = λ k lt. elim (Bool-cases (i == n)) [
    | inl here' ↦
        let here = (==_iff i n).0 here' in
        ap (λ j. direct_ptr (readi s (writei s d n inode) j) k) here
        ∙ direct_ptr-ext (readi s (writei s d n inode) n) inode k lt
            (λ x lo hi. readi-writei s d n inode x op (omega arith))
        ∙ same k lt
        ∙ ap (λ j. direct_ptr (readi s d j) k) (sym here)
    | inr other ↦
        direct_ptr-ext (readi s (writei s d n inode) i) (readi s d i) k lt (λ x lo hi.
          readi-writei_other s d n i inode x op (omega arith) (λ e. unequal i n other e))
  ];
  blocks = λ k lt there.
      let c = direct_ptr (readi s d i) k in
      bio_read-ext (writei s d n inode) d c c
        (λ x h. bio_read-writei s d n inode c x op (away.blocks_apart k lt there).1 h);
}
  where
    unequal : (x y : ℕ) → (x == y) ≡ false → x ≢ y
    unequal x y e z = ground arith
