-- ===== src/Rufs/Mkfs/Root.antt =====
-- The steps of `rufs_mkfs`, and the root inode that it writes.
use native.Mathlib.Nat.{zero-div}
use cs.Prelude.{
  ℕ, zero, suc, ◌+◌, ◌*◌, ◌/◌, ◌%◌, ◌^◌, ◌≤◌, ◌<◌, ◌≡◌, refl, sym, ap, ◌∙◌, inl, inr, true, arith,
  ltb, ◌==◌, if◌then◌else◌, ==_iff, Bool-cases, ok,
}
use cs.Memory.{Mem, load_word, store_word, memset}
use cs.Memory.Words.{load-ext, load-store, load-store_apart}
use cs.Memory.Blocks.{memset-inside}
use cs.Bitmap.{Bitmap, set_bitmap}
use cs.Bitmap.Bits.{bit_of}
use cs.Bitmap.View.{IsBytes, Marks}
use cs.Rufs.Disk.{Disk, unopened, opened, dev_init, bio_read, bio_write}
use cs.Rufs.Disk.Blocks.{bio_read-bio_write, bio_read-bio_write_other}
use cs.Rufs.Alloc.{Superblock, bitmap_of}
use cs.Rufs.Alloc.Takes.{disk_bit}
use cs.Rufs.Inodes.{readi, writei, inode_block}
use cs.Rufs.Inodes.RoundTrip.{readi-writei}
use cs.Rufs.Directory.{direct_ptr, no_block}
use cs.Rufs.Mkfs.{Surroundings, made_super, super_bytes, clear_pointers, root_bytes, rufs_mkfs}

pub clear_pointers-below :
    (m : Mem) (i n a : ℕ) → a + 4 ≤ 16 + 4 * i → load_word (clear_pointers m i n) a ≡ load_word m a
unfolding clear_pointers
clear_pointers-below m i zero a lo = refl
clear_pointers-below m i (suc n) a lo =
    clear_pointers-below (store_word m (16 + 4 * i) no_block) (i + 1) n a (omega arith)
    ∙ load-store_apart m (16 + 4 * i) no_block a (inl (omega arith))

clear_pointers-direct_ptr :
    (m : Mem) (i n k : ℕ)
    → i ≤ k
    → k < i + n
    → load_word (clear_pointers m i n) (16 + 4 * k) ≡ no_block
unfolding clear_pointers
clear_pointers-direct_ptr m i zero k lo hi = absurd (omega arith)
clear_pointers-direct_ptr m i (suc n) k lo hi = elim (Bool-cases (i == k)) [
  | inl same ↦
      ap (λ a. load_word (clear_pointers m i (suc n)) (16 + 4 * a)) (sym ((==_iff i k).0 same))
      ∙ clear_pointers-below (store_word m (16 + 4 * i) no_block) (i + 1) n (16 + 4 * i)
          (omega arith)
      ∙ load-store m (16 + 4 * i) no_block (omega arith)
  | inr other ↦
      clear_pointers-direct_ptr (store_word m (16 + 4 * i) no_block) (i + 1) n k (ground arith)
        (omega arith)
]

pub root-direct_ptr : (w : Surroundings) (i : ℕ) → i < 16 → direct_ptr (root_bytes w) i ≡ no_block
unfolding direct_ptr root_bytes
root-direct_ptr w i lt = clear_pointers-direct_ptr _ 0 16 i (omega arith) (omega arith)

pub readi-direct_ptr :
    (s : Superblock) (d : Disk) (ino : ℕ) (inode : Mem) (i : ℕ)
    → d.diskfile ≡ opened
    → i < 16
    → direct_ptr (readi s (writei s d ino inode) ino) i ≡ direct_ptr inode i
unfolding direct_ptr
readi-direct_ptr s d ino inode i op lt =
    load-ext (readi s (writei s d ino inode) ino) inode (16 + 4 * i)
      (λ x lo hi. readi-writei s d ino inode x op (omega arith))

-- The disk that `dev_init` makes.
abbrev pub fresh_disk : Disk → Disk
fresh_disk d = record {
  bytes = λ x. if ltb x (4096 * d.blocks) then d.bytes x else 0;
  blocks = 8192;
  diskfile = opened;
}

abbrev pub inode_bits : Surroundings → Bitmap
inode_bits w = bitmap_of (memset w.fresh_inodes 0 0 128) 4096

module _ (w : Surroundings) (d : Disk) (b : Bitmap) where
  abbrev pub d1 : Disk
  d1 = (bio_write (fresh_disk d) 0 (super_bytes w.fresh_super made_super)).1

  abbrev pub d2 : Disk
  d2 = (bio_write d1 1 b.bytes).1

  abbrev pub d3 : Disk
  d3 = (bio_write d2 2 (memset w.fresh_data 0 0 2048)).1

  abbrev pub d4 : Disk
  d4 = writei made_super d3 1 (root_bytes w)

  pub open1 : d1.diskfile ≡ opened
  open1 =
      (bio_read-bio_write (fresh_disk d) 0 (super_bytes w.fresh_super made_super) 0 refl
        (omega arith)).1

  pub open2 : d2.diskfile ≡ opened
  open2 = (bio_read-bio_write d1 1 b.bytes 0 open1 (omega arith)).1

  pub open3 : d3.diskfile ≡ opened
  open3 = (bio_read-bio_write d2 2 (memset w.fresh_data 0 0 2048) 0 open2 (omega arith)).1

  pub mkfs_steps :
      d.diskfile ≡ unopened
      → w.opens ≡ true
      → set_bitmap (inode_bits w) 1 ≡ ok b
      → rufs_mkfs w d ≡ ok (made_super, d4)
  unfolding rufs_mkfs dev_init
  mkfs_steps un op run = rw un (rw op (rw run refl))

  inode_bitmap_bytes : (i : ℕ) → i < 4096 → (bio_read d4 1).1 i ≡ b.bytes i
  unfolding writei inode_block
  inode_bitmap_bytes i lt =
      bio_read-bio_write_other d3 3 1 _ i open3 (λ e. omega arith) lt
      ∙ bio_read-bio_write_other d2 2 1 (memset w.fresh_data 0 0 2048) i open2 (λ e. omega arith) lt
      ∙ (bio_read-bio_write d1 1 b.bytes i open1 lt).0

  -- The bitmap in the block has the bits of `b`.
  pub inode_bitmap_bits :
      Marks 1 (inode_bits w) 1 b → (j : ℕ) → j < 1024 → disk_bit d4 1 j ≡ (if 1 == j then 1 else 0)
  unfolding bit_of
  inode_bitmap_bits marks j lt =
      let old : memset w.fresh_inodes 0 0 128 (j / 8) ≡ 0 =
        memset-inside w.fresh_inodes 0 0 128 (j / 8) (omega arith) (omega arith) in
      ap (λ a. bit_of a (j % 8)) (inode_bitmap_bytes (j / 8) (omega arith))
      ∙ marks.bits j
      ∙ ap (λ a. if 1 == j then 1 else bit_of a (j % 8)) old
      ∙ ap (λ a. if 1 == j then 1 else a % 2) (zero-div (2 ^ (j % 8)))

pub cleared : (w : Surroundings) → ((i : ℕ) → w.fresh_inodes i < 256) → IsBytes (inode_bits w)
unfolding memset
cleared w whole j = memset_small w.fresh_inodes j (whole j)
  where
    memset_small : (m : Mem) (j : ℕ) → m j < 256 → memset m 0 0 128 j < 256
    memset_small m j lt = ground arith
