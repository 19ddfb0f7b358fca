-- ===== src/Rufs/Fuse/Transfer/OneBlock.antt =====
-- A file with a block that lies apart from the directories on its path, and the disk after a write
-- of that block and of the inode.
use cs.Prelude.{ℕ, ◌/◌, ◌<◌, ◌≡◌, sym, ap, ◌∙◌, ◌≢◌, some, List, arith}
use cs.Memory.{Mem}
use cs.Rufs.Disk.{Disk, opened, bio_read, bio_write}
use cs.Rufs.Disk.Blocks.{bio_read-bio_write}
use cs.Rufs.Alloc.{Superblock}
use cs.Rufs.Inodes.{readi, writei, inode_block}
use cs.Rufs.Inodes.RoundTrip.{readi-writei}
use cs.Rufs.Directory.{load_half, direct_ptr, no_block, get_node_by_path}
use cs.Rufs.Directory.Rewrites.{direct_ptr-ext, bio_read-writei, readi-bio_write}
use cs.Rufs.Directory.Paths.{Resolves, Resolves-ext, SameDirectory, get_node_by_path-Resolves}
use cs.Rufs.Fuse.Transfer.{grown}
use cs.Rufs.Fuse.Transfer.Rounds.{
  direct_ptr-grown, IsApart, block_write-SameDirectory, inode_write-SameDirectory,
}

-- The file `n` is at the path, and its block at `offset` is `b`, apart from the directories on
-- the path and the inodes.
pub record HasBlock (s : Superblock) (d : Disk) (path : List ℕ) (offset n b : ℕ) : Type 0 where
  pub is_opened : d.diskfile ≡ opened
  pub at_path : Resolves s d (IsApart s d n b) path n
  pub own_number : load_half (readi s d n) 0 ≡ n
  pub in_range : offset / 4096 < 16
  pub pointer : direct_ptr (readi s d n) (offset / 4096) ≡ b
  pub is_block : b ≢ no_block
  pub inode_apart : inode_block s n ≢ b

both_same :
    (s : Superblock) (d d1 d2 : Disk) (i : ℕ)
    → SameDirectory s d d1 i
    → SameDirectory s d1 d2 i
    → SameDirectory s d d2 i
both_same s d d1 d2 i p q = record {
  pointers = λ k lt. q.pointers k lt ∙ p.pointers k lt;
  blocks = λ k lt there.
      let e = p.pointers k lt in
      ap (λ c. (bio_read d2 c).1) (sym e)
      ∙ q.blocks k lt (λ z. there (sym e ∙ z))
      ∙ ap (λ c. (bio_read d1 c).1) e
      ∙ p.blocks k lt there;
}

SameDirectory-IsApart :
    (s : Superblock) (d d1 : Disk) (n b i : ℕ)
    → SameDirectory s d d1 i
    → IsApart s d n b i
    → IsApart s d1 n b i
SameDirectory-IsApart s d d1 n b i same away = record {
  inode_apart = away.inode_apart;
  blocks_apart = λ k lt there.
      let e = same.pointers k lt in
      let (p, q) = away.blocks_apart k lt (λ z. there (e ∙ z)) in
      (λ z. p (sym e ∙ z), λ z. q (sym e ∙ z));
}

-- The disk after a write of the bytes `block` to `b`, and of the inode.
abbrev pub with_write : Superblock → Disk → ℕ → ℕ → Mem → ℕ → ℕ → Disk
with_write s d n b block size now =
    writei s (bio_write d b block).1 n (grown (readi s d n) size now)

module _ (s : Superblock) (d : Disk) (path : List ℕ) (offset n b : ℕ) (block : Mem) (size now : ℕ)
    (has : HasBlock s d path offset n b) where
  abbrev d1 : Disk
  d1 = (bio_write d b block).1

  abbrev d2 : Disk
  d2 = with_write s d n b block size now

  open1 : d1.diskfile ≡ opened
  open1 = (bio_read-bio_write d b block 0 has.is_opened (omega arith)).1

  pointers1 : (k : ℕ) → k < 16 → direct_ptr (readi s d1 n) k ≡ direct_ptr (readi s d n) k
  pointers1 k lt =
      direct_ptr-ext (readi s d1 n) (readi s d n) k lt
        (λ x lo hi. readi-bio_write s d b block n x has.is_opened has.inode_apart (omega arith))

  same : (i : ℕ) → IsApart s d n b i → SameDirectory s d d2 i
  same i away =
      let first = block_write-SameDirectory s d n b i block has.is_opened away in
      both_same s d d1 d2 i first (
        inode_write-SameDirectory s d1 n b i (grown (readi s d n) size now) open1
          (λ k lt. direct_ptr-grown (readi s d n) size now k lt ∙ sym (pointers1 k lt))
          (SameDirectory-IsApart s d d1 n b i first away))

  pub found_after : get_node_by_path s d2 path 1 ≡ (0, some (readi s d2 n))
  found_after = get_node_by_path-Resolves s d2 (IsApart s d2 n b) path n (
      Resolves-ext s d d2 (IsApart s d n b) (IsApart s d2 n b) path n
        (λ i away. (same i away, SameDirectory-IsApart s d d2 n b i (same i away) away))
        has.at_path)

  pub pointer_after : direct_ptr (readi s d2 n) (offset / 4096) ≡ b
  pointer_after =
      direct_ptr-ext (readi s d2 n) (grown (readi s d n) size now) (offset / 4096) has.in_range
        (λ x lo hi. readi-writei s d1 n (grown (readi s d n) size now) x open1 (omega arith))
      ∙ direct_ptr-grown (readi s d n) size now (offset / 4096) has.in_range
      ∙ has.pointer

  pub block_after : (k : ℕ) → k < 4096 → (bio_read d2 b).1 k ≡ block k
  block_after k lt =
      bio_read-writei s d1 n (grown (readi s d n) size now) b k open1 (λ z. has.inode_apart (sym z))
        lt
      ∙ (bio_read-bio_write d b block k has.is_opened lt).0
