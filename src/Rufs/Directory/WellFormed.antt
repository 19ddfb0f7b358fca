-- ===== src/Rufs/Directory/WellFormed.antt =====
-- A directory whose blocks lie apart from the bitmaps and the inodes, and that writes of its inode
-- and of a data block leave it so.
use mathlib.Core.Path.{subst}
use cs.Rufs.Disk.Blocks.{bio_read-ext}
use cs.Prelude.{ℕ, ◌+◌, ◌^◌, ◌≤◌, ◌<◌, ◌≡◌, sym, ◌∙◌, ◌≢◌, arith}
use cs.Memory.{Mem}
use cs.Rufs.Disk.{Disk}
use cs.Rufs.Alloc.{Superblock}
use cs.Rufs.Alloc.Takes.{HasBitmap}
use cs.Rufs.Inodes.{readi, inode_block}
use cs.Rufs.Directory.{direct_ptr, no_block, load_half}
use cs.Rufs.Directory.Entries.{half-ext}
use cs.Rufs.Directory.Rewrites.{direct_ptr-ext, Rewritten}

-- The inode `ino` knows its number, and the blocks of bitmaps, inodes and data lie apart.
pub record IsDirectory (s : Superblock) (d : Disk) (ino : ℕ) : Type 0 where
  pub has_bitmap : HasBitmap d s.d_bitmap_blk
  pub own_number : load_half (readi s d ino) 0 ≡ ino
  pub bitmap_first : s.d_bitmap_blk < s.d_start_blk
  pub inode_first : inode_block s ino < s.d_start_blk
  pub bitmap_apart : s.d_bitmap_blk ≢ inode_block s ino
  pub few : s.d_start_blk + 16384 < 2 ^ 31
  pub data_blocks :
      (k : ℕ)
      → k < 16
      → direct_ptr (readi s d ino) k ≢ no_block
      → s.d_start_blk ≤ direct_ptr (readi s d ino) k

-- A write of the inode and of a data block leaves it so, where the pointers lead to data blocks.
pub Rewritten-IsDirectory :
    (s : Superblock) (d d1 d' : Disk) (ino : ℕ) (inode : Mem) (b : ℕ) (block : Mem)
    → IsDirectory s d ino
    → HasBitmap d1 s.d_bitmap_blk
    → Rewritten s d1 ino inode b block d'
    → s.d_start_blk ≤ b
    → load_half inode 0 ≡ ino
    → ((k : ℕ) → k < 16 → direct_ptr inode k ≢ no_block → s.d_start_blk ≤ direct_ptr inode k)
    → IsDirectory s d' ino
Rewritten-IsDirectory s d d1 d' ino inode b block dir bits w ge own data_blocks =
    let q : (k : ℕ) → k < 16 → direct_ptr (readi s d' ino) k ≡ direct_ptr inode k =
      λ k h. direct_ptr-ext (readi s d' ino) inode k h (λ x lo hi. w.inode_now x (omega arith)) in
    record {
      has_bitmap = record {
        is_opened = w.open_still;
        whole = λ i.
            subst (λ m. m i < 256)
              (sym (
                bio_read-ext d' d1 s.d_bitmap_blk s.d_bitmap_blk (λ x h.
                  w.others s.d_bitmap_blk x
                    (λ z. below s.d_bitmap_blk b s.d_start_blk z dir.bitmap_first ge)
                    dir.bitmap_apart h)))
              (bits.whole i);
      };
      own_number =
          half-ext (readi s d' ino) inode 0 (w.inode_now 0 (omega arith))
            (w.inode_now 1 (omega arith))
          ∙ own;
      bitmap_first = dir.bitmap_first;
      inode_first = dir.inode_first;
      bitmap_apart = dir.bitmap_apart;
      few = dir.few;
      data_blocks = λ k lt there.
          subst (λ c. s.d_start_blk ≤ c) (sym (q k lt))
            (data_blocks k lt (λ z. there (q k lt ∙ z)));
    }
  where
    below : (x y n : ℕ) → x ≡ y → x < n → n ≤ y → ⊥
    below x y n e lt le = omega arith
