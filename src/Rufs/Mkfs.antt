-- ===== src/Rufs/Mkfs.antt =====
-- `rufs_mkfs` of project4/rufs.c. What the fresh blocks and the calls of the system give are
-- parameters.
pub mod Root
pub mod Ready
use cs.Prelude.{ℕ, zero, suc, ◌+◌, ◌*◌, ◌/◌, Bool, Outcome, ok, ◌>>=◌}
use cs.Memory.{Mem, store_word, memset}
use cs.Bitmap.{set_bitmap}
use cs.Rufs.Disk.{Disk, dev_init, bio_write}
use cs.Rufs.Alloc.{Superblock, bitmap_of}
use cs.Rufs.Inodes.{writei}
use cs.Rufs.Directory.{no_block, store_half, store_long}

-- `S_IFDIR`, and the mode of the root: `S_IFDIR | 0755`.
abbrev pub s_ifdir : ℕ
s_ifdir = 16384

abbrev pub root_mode : ℕ
root_mode = s_ifdir + 493

pub record Surroundings : Type 0 where
  pub opens : Bool
  pub fresh_super : Mem
  pub fresh_inodes : Mem
  pub fresh_data : Mem
  pub fresh_root : Mem
  pub uid : ℕ
  pub gid : ℕ
  pub now : ℕ

-- The blocks of all inodes: `ceil(1024 * 256 / 4096)`.
abbrev pub num_blocks_inodes : ℕ
num_blocks_inodes = (1024 * 256 + 4095) / 4096

abbrev pub made_super : Superblock
made_super = record {
  magic_num = 23610;
  max_inum = 1024;
  max_dnum = 16384;
  i_bitmap_blk = 1;
  d_bitmap_blk = 1 + 1;
  i_start_blk = 1 + 1 + 1;
  d_start_blk = 1 + 1 + 1 + num_blocks_inodes;
}

-- The superblock as bytes.
unfoldable pub super_bytes : Mem → Superblock → Mem
super_bytes m s =
    let m1 = store_word m 0 s.magic_num in
    let m2 = store_half (store_half m1 4 s.max_inum) 6 s.max_dnum in
    let m3 = store_word (store_word m2 8 s.i_bitmap_blk) 12 s.d_bitmap_blk in
    store_word (store_word m3 16 s.i_start_blk) 20 s.d_start_blk

-- `direct_ptr[i] = -1` for `n` values of `i`.
unfoldable pub clear_pointers : Mem → ℕ → ℕ → Mem
clear_pointers m i zero = m
clear_pointers m i (suc n) = clear_pointers (store_word m (16 + 4 * i) no_block) (i + 1) n

-- The root inode: `vstat` begins at 112.
unfoldable pub root_bytes : Surroundings → Mem
root_bytes w =
    let m1 = store_half (store_half w.fresh_root 0 1) 2 1 in
    let m2 = store_word (store_word (store_word m1 4 0) 8 s_ifdir) 12 2 in
    let m3 = store_word (store_word m2 140 w.uid) 144 w.gid in
    let m4 = store_long (store_long m3 128 2) 200 w.now in
    let m5 = store_word (store_long m4 160 0) 136 root_mode in clear_pointers m5 0 16

unfoldable pub rufs_mkfs : Surroundings → Disk → Outcome (Superblock × Disk)
rufs_mkfs w d = do
  d0 ← dev_init w.opens d
  let d1 = (bio_write d0 0 (super_bytes w.fresh_super made_super)).1
  inodes ← set_bitmap (bitmap_of (memset w.fresh_inodes 0 0 128) 4096) 1
  let d2 = (bio_write d1 made_super.i_bitmap_blk inodes.bytes).1
  let d3 = (bio_write d2 made_super.d_bitmap_blk (memset w.fresh_data 0 0 2048)).1
  ok (made_super, writei made_super d3 1 (root_bytes w))
