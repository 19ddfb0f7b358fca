-- ===== src/Rufs/Fuse/Start.antt =====
-- `rufs_init` and `rufs_destroy` of project4/rufs.c.
use cs.Prelude.{ℕ, Bool, [], ◌∷◌, if◌then◌else◌, is_zero, Outcome, ok, ◌>>=◌}
use cs.Memory.{Mem, load_word}
use cs.Rufs.Disk.{Disk, dev_open, dev_close, bio_read}
use cs.Rufs.Alloc.{Superblock}
use cs.Rufs.Inodes.{readi}
use cs.Rufs.Directory.{load_half, dir_add}
use cs.Rufs.Mkfs.{Surroundings, rufs_mkfs}

-- The superblock in the bytes of block 0.
unfoldable pub super_of : Mem → Superblock
super_of m = record {
  magic_num = load_word m 0;
  max_inum = load_half m 4;
  max_dnum = load_half m 6;
  i_bitmap_blk = load_word m 8;
  d_bitmap_blk = load_word m 12;
  i_start_blk = load_word m 16;
  d_start_blk = load_word m 20;
}

-- The step 1a. `opens` is whether `dev_open` can open the file.
unfoldable pub opened_or_made : Bool → Surroundings → Disk → Outcome Disk
opened_or_made opens w d =
    let (code, d') = dev_open opens d in
    if is_zero code then ok d' else rufs_mkfs w d' >>= λ r. ok r.1

-- The superblock that the later calls read, and the disk. `entries` is what stands in the block
-- that the n-th `dir_add` may take.
unfoldable pub rufs_init : Bool → Surroundings → (ℕ → Mem) → Disk → Outcome (Superblock × Disk)
rufs_init opens w entries d = do
  d1 ← opened_or_made opens w d
  let s = super_of (bio_read d1 0).1
  one ← dir_add s d1 (entries 0) (readi s d1 1) 1 (46 ∷ []) 1
  two ← dir_add s one.1 (entries 1) (readi s one.1 1) 1 (46 ∷ 46 ∷ []) 2
  ok (s, two.1)

unfoldable pub rufs_destroy : Disk → Disk
rufs_destroy d = dev_close d
