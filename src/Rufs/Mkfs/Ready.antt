-- ===== src/Rufs/Mkfs/Ready.antt =====
-- The file system that `rufs_mkfs` leaves: its superblock, its bitmaps, and the root directory.
use cs.Prelude.{
  ℕ, ◌+◌, ◌/◌, ◌%◌, ◌^◌, ◌≤◌, ◌<◌, ◌≡◌, refl, sym, ap, ◌∙◌, ◌≢◌, inl, inr, true, arith, ltb, ◌==◌,
  if◌then◌else◌, Bool-cases, ok,
}
use mathlib.Core.Path.{subst}
use native.Mathlib.Nat.{zero-div}
use cs.Memory.{Mem, load_word, store_word, memset}
use cs.Memory.Words.{load-ext}
use cs.Memory.Blocks.{memset-inside}
use cs.Bitmap.{Bitmap}
use cs.Bitmap.Bits.{bit_of}
use cs.Bitmap.View.{set_bit-Marks}
use cs.Bitmap.Unsigned.{writes_agree}
use cs.Rufs.Disk.{Disk, unopened, opened, bio_read}
use cs.Rufs.Disk.Blocks.{bio_read-bio_write, bio_read-bio_write_other, bio_read-behind}
use cs.Rufs.Alloc.{Superblock}
use cs.Rufs.Alloc.Takes.{disk_bit}
use cs.Rufs.Inodes.{readi, writei, inode_block}
use cs.Rufs.Inodes.RoundTrip.{readi-writei}
use cs.Rufs.Directory.{direct_ptr, no_block, load_half, store_half, store_long}
use cs.Rufs.Directory.Entries.{half-ext}
use cs.Rufs.Directory.WellFormed.{IsDirectory}
use cs.Rufs.Fuse.Start.{super_of}
use cs.Rufs.Mkfs.{Surroundings, made_super, super_bytes, clear_pointers, root_bytes, rufs_mkfs}
use cs.Rufs.Mkfs.Root.{
  root-direct_ptr, readi-direct_ptr, fresh_disk, inode_bits, d1, d2, d3, d4, open1, open2, open3,
  mkfs_steps, inode_bitmap_bits, cleared,
}

super_of-ext : (m m' : Mem) → ((x : ℕ) → x < 24 → m x ≡ m' x) → super_of m ≡ super_of m'
unfolding super_of
super_of-ext m m' h =
    let word : (a : ℕ) → a + 4 ≤ 24 → load_word m a ≡ load_word m' a =
      λ a le. load-ext m m' a (λ x lo hi. h x (omega arith)) in
    let half : (a : ℕ) → a + 2 ≤ 24 → load_half m a ≡ load_half m' a =
      λ a le. half-ext m m' a (h a (omega arith)) (h (a + 1) (omega arith)) in
    rw
      (
        word 0 (omega arith),
        half 4 (omega arith),
        half 6 (omega arith),
        word 8 (omega arith),
        word 12 (omega arith),
        word 16 (omega arith),
        word 20 (omega arith),
      )
      refl

super_of-super_bytes : (m : Mem) → super_of (super_bytes m made_super) ≡ made_super
unfolding super_of super_bytes load_word store_word load_half store_half
super_of-super_bytes m = refl

-- A file system with nothing in it but an empty root.
pub record IsFormatted (s : Superblock) (d : Disk) : Type 0 where
  pub superblock : super_of (bio_read d 0).1 ≡ s
  pub root : IsDirectory s d 1
  pub inode_bits : (j : ℕ) → j < 1024 → disk_bit d s.i_bitmap_blk j ≡ (if 1 == j then 1 else 0)
  pub data_bits : (j : ℕ) → j < 16384 → disk_bit d s.d_bitmap_blk j ≡ 0
  pub no_blocks : (i : ℕ) → i < 16 → direct_ptr (readi s d 1) i ≡ no_block

root_number : (w : Surroundings) → load_half (root_bytes w) 0 ≡ 1
unfolding root_bytes store_half store_long store_word clear_pointers load_half
root_number w = refl

module _ (w : Surroundings) (d : Disk) (b : Bitmap) where
  kept : (n i : ℕ) → n ≢ 3 → i < 4096 → (bio_read (d4 w d b) n).1 i ≡ (bio_read (d3 w d b) n).1 i
  unfolding writei inode_block
  kept n i ne lt = bio_read-bio_write_other (d3 w d b) 3 n _ i (open3 w d b) ne lt

  super_there : super_of (bio_read (d4 w d b) 0).1 ≡ made_super
  super_there =
      super_of-ext (bio_read (d4 w d b) 0).1 (super_bytes w.fresh_super made_super) (λ x lt.
        kept 0 x (λ z. omega arith) (omega arith)
        ∙ bio_read-bio_write_other (d2 w d b) 2 0 (memset w.fresh_data 0 0 2048) x (open2 w d b)
            (λ z. omega arith) (omega arith)
        ∙ bio_read-bio_write_other (d1 w d b) 1 0 b.bytes x (open1 w d b) (λ z. omega arith)
            (omega arith)
        ∙ (bio_read-bio_write (fresh_disk d) 0 (super_bytes w.fresh_super made_super) x refl
            (omega arith)).0)
      ∙ super_of-super_bytes w.fresh_super

  data_bytes : (i : ℕ) → i < 4096 → (bio_read (d4 w d b) 2).1 i ≡ memset w.fresh_data 0 0 2048 i
  data_bytes i lt =
      kept 2 i (λ z. omega arith) lt
      ∙ (bio_read-bio_write (d2 w d b) 2 (memset w.fresh_data 0 0 2048) i (open2 w d b) lt).0

  data_clear : (j : ℕ) → j < 16384 → disk_bit (d4 w d b) 2 j ≡ 0
  unfolding bit_of
  data_clear j lt =
      ap (λ a. bit_of a (j % 8))
        (data_bytes (j / 8) (omega arith)
          ∙ memset-inside w.fresh_data 0 0 2048 (j / 8) (omega arith) (omega arith))
      ∙ ap (λ a. a % 2) (zero-div (2 ^ (j % 8)))

  data_whole : ((i : ℕ) → w.fresh_data i < 256) → (i : ℕ) → (bio_read (d4 w d b) 2).1 i < 256
  unfolding memset
  data_whole whole i = elim (Bool-cases (ltb i 4096)) [
    | inl lt ↦ subst (λ x. x < 256) (sym (data_bytes i (ground arith))) (ground (arith, whole i))
    | inr ge ↦
        subst (λ x. x < 256) (sym (bio_read-behind (d4 w d b) 2 i (ground arith))) (omega arith)
  ]

  open4 : (d4 w d b).diskfile ≡ opened
  unfolding writei
  open4 =
      (bio_read-bio_write (d3 w d b) (inode_block made_super 1) _ 0 (open3 w d b) (omega arith)).1

  root_pointers : (i : ℕ) → i < 16 → direct_ptr (readi made_super (d4 w d b) 1) i ≡ no_block
  root_pointers i lt =
      readi-direct_ptr made_super (d3 w d b) 1 (root_bytes w) i (open3 w d b) lt
      ∙ root-direct_ptr w i lt

  root-IsDirectory : ((i : ℕ) → w.fresh_data i < 256) → IsDirectory made_super (d4 w d b) 1
  unfolding inode_block
  root-IsDirectory whole = record {
    has_bitmap = record { is_opened = open4; whole = data_whole whole };
    own_number =
        half-ext (readi made_super (d4 w d b) 1) (root_bytes w) 0
          (readi-writei made_super (d3 w d b) 1 (root_bytes w) 0 (open3 w d b) (omega arith))
          (readi-writei made_super (d3 w d b) 1 (root_bytes w) 1 (open3 w d b) (omega arith))
        ∙ root_number w;
    bitmap_first = omega arith;
    inode_first = omega arith;
    bitmap_apart = λ z. omega arith;
    few = omega arith;
    data_blocks = λ k lt there. absurd (there (root_pointers k lt));
  }

-- `rufs_mkfs`, where the disk is not open yet and opening it succeeds, ends well. On the disk the
-- superblock can be read back, the root is a well-formed directory without a block, inode 1 alone
-- is marked as used, and no data block is.
pub rufs_mkfs-IsFormatted :
    (w : Surroundings) (d : Disk)
    → d.diskfile ≡ unopened
    → w.opens ≡ true
    → ((i : ℕ) → w.fresh_inodes i < 256)
    → ((i : ℕ) → w.fresh_data i < 256)
    → (d' : Disk) × (rufs_mkfs w d ≡ ok (made_super, d')) × IsFormatted made_super d'
rufs_mkfs-IsFormatted w d un op inodes whole =
    let (b, run, marks) = set_bit-Marks (inode_bits w) 1 (cleared w inodes) (omega arith) in
    (
      d4 w d b,
      mkfs_steps w d b un op ((writes_agree (inode_bits w) 1).0 ∙ run),
      record {
        superblock = super_there w d b;
        root = root-IsDirectory w d b whole;
        inode_bits = inode_bitmap_bits w d b marks;
        data_bits = data_clear w d b;
        no_blocks = root_pointers w d b;
      },
    )
