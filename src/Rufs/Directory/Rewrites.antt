-- ===== src/Rufs/Directory/Rewrites.antt =====
-- A disk on which an inode and then a block are written, and the pointers of the inode.
use cs.Prelude.{sym, ℕ, ◌+◌, ◌*◌, ◌/◌, ◌%◌, ◌^◌, ◌≤◌, ◌<◌, ◌≡◌, ◌∙◌, ◌≢◌, ◌⊎◌, inl, inr, arith}
use cs.Memory.{Mem, load_word, store_word}
use cs.Memory.Words.{load-ext, load-store_apart}
use cs.Rufs.Disk.{Disk, opened, bio_read, bio_write}
use cs.Rufs.Disk.Blocks.{bio_read-bio_write, bio_read-bio_write_other}
use cs.Rufs.Alloc.{Superblock}
use cs.Rufs.Inodes.{readi, writei, inode_block, inode_offset, with_inode}
use cs.Rufs.Inodes.RoundTrip.{readi-in, readi-writei}
use cs.Rufs.Directory.{direct_ptr, grow_inode, store_long}

pub direct_ptr-ext :
    (m m' : Mem) (i : ℕ)
    → i < 16
    → ((x : ℕ) → 16 ≤ x → x < 80 → m x ≡ m' x)
    → direct_ptr m i ≡ direct_ptr m' i
unfolding direct_ptr
direct_ptr-ext m m' i lt h = load-ext m m' (16 + 4 * i) (λ x lo hi. h x (omega arith) (omega arith))

pub long-apart :
    (m : Mem) (a v b : ℕ)
    → (b + 4 ≤ a) ⊎ (a + 8 ≤ b)
    → load_word (store_long m a v) b ≡ load_word m b
unfolding store_long
long-apart m a v b h =
    load-store_apart (store_word m a (v % 2 ^ 32)) (a + 4) (v / 2 ^ 32 % 2 ^ 32) b (omega arith)
    ∙ load-store_apart m a (v % 2 ^ 32) b (omega arith)

pub direct_ptr-grow_inode :
    (m : Mem) (i : ℕ) → i < 16 → direct_ptr (grow_inode m) i ≡ direct_ptr m i
unfolding direct_ptr grow_inode
direct_ptr-grow_inode m i lt =
    long-apart _ 160 _ (16 + 4 * i) (inl (omega arith))
    ∙ load-store_apart m 4 _ (16 + 4 * i) (inr (omega arith))

-- Another block than that of the inode.
pub bio_read-writei :
    (s : Superblock) (d : Disk) (ino : ℕ) (inode : Mem) (b i : ℕ)
    → d.diskfile ≡ opened
    → b ≢ inode_block s ino
    → i < 4096
    → (bio_read (writei s d ino inode) b).1 i ≡ (bio_read d b).1 i
unfolding writei
bio_read-writei s d ino inode b i op ne lt =
    bio_read-bio_write_other d (inode_block s ino) b
      (with_inode (bio_read d (inode_block s ino)).1 (inode_offset ino) inode) i op ne lt

pub writei-opened :
    (s : Superblock) (d : Disk) (ino : ℕ) (inode : Mem)
    → d.diskfile ≡ opened
    → (writei s d ino inode).diskfile ≡ opened
unfolding writei
writei-opened s d ino inode op =
    (bio_read-bio_write d (inode_block s ino)
      (with_inode (bio_read d (inode_block s ino)).1 (inode_offset ino) inode) 0 op (omega arith)).1

-- A write of a block leaves the inodes of other blocks.
pub readi-bio_write :
    (s : Superblock) (d : Disk) (b : ℕ) (block : Mem) (ino k : ℕ)
    → d.diskfile ≡ opened
    → inode_block s ino ≢ b
    → k < 256
    → readi s (bio_write d b block).1 ino k ≡ readi s d ino k
unfolding inode_offset
readi-bio_write s d b block ino k op ne lt =
    readi-in s (bio_write d b block).1 ino k lt
    ∙ bio_read-bio_write_other d b (inode_block s ino) block (256 * inode_offset ino + k) op ne
        (omega arith)
    ∙ sym (readi-in s d ino k lt)

-- What a disk holds on which the inode and then the block `b` were written.
pub record Rewritten (s : Superblock) (d : Disk) (ino : ℕ) (inode : Mem) (b : ℕ) (block : Mem)
    (d' : Disk) : Type 0 where
  pub open_still : d'.diskfile ≡ opened
  pub inode_now : (k : ℕ) → k < 256 → readi s d' ino k ≡ inode k
  pub block_now : (i : ℕ) → i < 4096 → (bio_read d' b).1 i ≡ block i
  pub others :
      (c i : ℕ)
      → c ≢ b
      → c ≢ inode_block s ino
      → i < 4096
      → (bio_read d' c).1 i ≡ (bio_read d c).1 i

pub bio_write-Rewritten :
    (s : Superblock) (d : Disk) (ino : ℕ) (inode : Mem) (b : ℕ) (block : Mem)
    → d.diskfile ≡ opened
    → inode_block s ino ≢ b
    → Rewritten s d ino inode b block (bio_write (writei s d ino inode) b block).1
bio_write-Rewritten s d ino inode b block op ne =
    let d1 = writei s d ino inode in
    let op1 = writei-opened s d ino inode op in
    record {
      open_still = (bio_read-bio_write d1 b block 0 op1 (omega arith)).1;
      inode_now =
          λ k lt. readi-bio_write s d1 b block ino k op1 ne lt ∙ readi-writei s d ino inode k op lt;
      block_now = λ i lt. (bio_read-bio_write d1 b block i op1 lt).0;
      others = λ c i away apart lt.
          bio_read-bio_write_other d1 b c block i op1 away lt
          ∙ bio_read-writei s d ino inode c i op apart lt;
    }
