-- ===== src/Rufs/Fuse/Make/Volume.antt =====
-- A volume with room for a file, and what is left of a directory when an inode is taken and written.
use cs.Prelude.{ℕ, ◌+◌, ◌*◌, ◌≤◌, ◌<◌, ◌≡◌, sym, ap, ◌∙◌, ◌≢◌, List, arith, length}
use mathlib.Core.Path.{subst}
use cs.Memory.{Mem}
use cs.Rufs.Disk.{Disk, bio_read}
use cs.Rufs.Disk.Blocks.{bio_read-ext}
use cs.Rufs.Alloc.{Superblock}
use cs.Rufs.Alloc.Takes.{HasBitmap, Takes, disk_bit}
use cs.Rufs.Inodes.{readi, writei, inode_block, inode_offset}
use cs.Rufs.Inodes.RoundTrip.{readi-in, readi-ext, readi-writei_other}
use cs.Rufs.Directory.{load_half, direct_ptr, no_block, dir_find}
use cs.Rufs.Directory.WellFormed.{IsDirectory}
use cs.Rufs.Directory.Rewrites.{direct_ptr-ext, bio_read-writei}
use cs.Rufs.Directory.Paths.{SameDirectory}

-- The blocks of the bitmaps and of the inodes lie apart, before those of the data.
pub record IsVolume (s : Superblock) (d : Disk) : Type 0 where
  pub inode_bits : HasBitmap d s.i_bitmap_blk
  pub bits_first : s.i_bitmap_blk < s.d_start_blk
  pub bits_differ : s.d_bitmap_blk ≢ s.i_bitmap_blk
  pub inodes_apart :
      (i : ℕ) → i < 1024 → (inode_block s i ≢ s.i_bitmap_blk) × (inode_block s i < s.d_start_blk)

-- The directory `dir` can take a file of the name: it is in use, has a pointer to spare and not the
-- name, and an inode and a data block are free.
pub record HasRoom (s : Superblock) (d : Disk) (dir : ℕ) (name : List ℕ)
    (free_ino free_block unused : ℕ) : Type 0 where
  pub volume : IsVolume s d
  pub directory : IsDirectory s d dir
  pub in_range : dir < 1024
  pub in_use : disk_bit d s.i_bitmap_blk dir ≡ 1
  pub no_name : (dir_find s d dir name (length name)).0 ≢ 0
  pub short : length name < 250
  pub ino_in_range : (1 ≤ free_ino) × (free_ino < 1024)
  pub ino_free : disk_bit d s.i_bitmap_blk free_ino ≡ 0
  pub block_in_range : free_block < 16384
  pub block_free : disk_bit d s.d_bitmap_blk free_block ≡ 0
  pub unused_in_range : unused < 16
  pub unused_pointer : direct_ptr (readi s d dir) unused ≡ no_block

module _ (s : Superblock) (d d1 : Disk) (dir r : ℕ) (volume : IsVolume s d)
    (directory : IsDirectory s d dir) (small : dir < 1024)
    (takes : Takes d s.i_bitmap_blk 128 1 r d1) where
  pub same_inode : readi s d1 dir ≡ readi s d dir
  unfolding inode_offset
  same_inode = readi-ext s d1 d dir dir (λ k lt.
      readi-in s d1 dir k lt
      ∙ takes.others (inode_block s dir) (256 * inode_offset dir + k)
          (volume.inodes_apart dir small).0 (omega arith)
      ∙ sym (readi-in s d dir k lt))

  pub same_block : (c : ℕ) → c ≢ s.i_bitmap_blk → (bio_read d1 c).1 ≡ (bio_read d c).1
  same_block c ne = bio_read-ext d1 d c c (λ i lt. takes.others c i ne lt)

  -- The directory after the inode was taken.
  pub same_directory : SameDirectory s d d1 dir
  same_directory = record {
    pointers = λ k lt. ap (λ m. direct_ptr m k) same_inode;
    blocks = λ k lt there. same_block (direct_ptr (readi s d dir) k) (λ z.
        below (direct_ptr (readi s d dir) k) s.i_bitmap_blk s.d_start_blk z
          (directory.data_blocks k lt there) volume.bits_first);
  }
    where
      below : (x y n : ℕ) → x ≡ y → n ≤ x → y < n → ⊥
      below x y n e le lt = omega arith

  pub Takes-IsDirectory : IsDirectory s d1 dir
  Takes-IsDirectory = record {
    has_bitmap = record {
      is_opened = takes.still_open;
      whole = λ i.
          subst (λ m. m i < 256) (sym (same_block s.d_bitmap_blk volume.bits_differ))
            (directory.has_bitmap.whole i);
    };
    own_number = ap (λ m. load_half m 0) same_inode ∙ directory.own_number;
    bitmap_first = directory.bitmap_first;
    inode_first = directory.inode_first;
    bitmap_apart = directory.bitmap_apart;
    few = directory.few;
    data_blocks =
        subst (λ m. (k : ℕ) → k < 16 → direct_ptr m k ≢ no_block → s.d_start_blk ≤ direct_ptr m k)
          (sym same_inode) directory.data_blocks;
  }

-- A write of another inode leaves the directory.
pub write_other-SameDirectory :
    (s : Superblock) (d : Disk) (dir r : ℕ) (inode : Mem)
    → IsDirectory s d dir
    → dir ≢ r
    → inode_block s r < s.d_start_blk
    → SameDirectory s d (writei s d r inode) dir
write_other-SameDirectory s d dir r inode directory ne lt =
    let op = directory.has_bitmap.is_opened in
    record {
      pointers = λ k h.
          direct_ptr-ext (readi s (writei s d r inode) dir) (readi s d dir) k h
            (λ x lo hi. readi-writei_other s d r dir inode x op (omega arith) ne);
      blocks = λ k h there.
          let c = direct_ptr (readi s d dir) k in
          bio_read-ext (writei s d r inode) d c c (λ x hx.
            bio_read-writei s d r inode c x op
              (λ z. below c (inode_block s r) s.d_start_blk z (directory.data_blocks k h there) lt)
              hx);
    }
  where
    below : (x y n : ℕ) → x ≡ y → n ≤ x → y < n → ⊥
    below x y n e le lt = omega arith
