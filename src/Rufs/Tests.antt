-- ===== src/Rufs/Tests.antt =====
-- Runs of the file system of project4 at concrete inputs.
mod Files
mod Rooms
mod Names
use cs.Prelude.{
  ℕ, ◌+◌, ◌≤◌, ◌<◌, ◌≡◌, refl, true, [], ◌∷◌, arith, ◌==◌, if◌then◌else◌, update, pos, negsuc, ok,
  false,
}
use cs.Memory.{load_word, store_word}
use cs.Rufs.Disk.{unopened}
use cs.Rufs.Mkfs.{Surroundings, made_super, rufs_mkfs}
use cs.Rufs.Fuse.Start.{rufs_init}
use cs.Rufs.Fuse.Mounted.{curr_dir, parent_dir, HasName, rufs_init-root}
use cs.Rufs.Directory.WellFormed.{IsDirectory}
use cs.Rufs.Mkfs.Ready.{IsFormatted, rufs_mkfs-IsFormatted}
use cs.Rufs.Alloc.Takes.{disk_bit}
use cs.Rufs.Directory.{
  direct_ptr, no_block, load_half, same_string, entry_matches, first_entry, first_in_blocks, eexist,
  dir_find, dir_add,
}
use cs.Rufs.Directory.Search.{Finds, dir_find-Finds, dir_add_exists}
use cs.Bitmap.Bits.{bit_of}
use cs.Rufs.Disk.{Disk, opened, dev_open, dev_close, bio_read, bio_write}
use cs.Rufs.Disk.Blocks.{bio_read-bio_write}
use cs.Rufs.Alloc.{Superblock, get_avail_ino, get_avail_blkno}
use cs.Rufs.Alloc.Takes.{HasBitmap, Takes, get_avail_ino-Takes, get_avail_blkno-Takes}
use cs.Rufs.Inodes.{readi, writei, inode_block, inode_offset}
use cs.Rufs.Inodes.RoundTrip.{readi-writei, readi-writei_other}

-- A disk that `rufs_mkfs` made, but for the root inode: inode 1 is in use.
abbrev disk : Disk
disk = record { bytes = λ x. if x == 4096 then 2 else 0; blocks = 8192; diskfile = opened }

abbrev super : Superblock
super = record {
  magic_num = 23610;
  max_inum = 1024;
  max_dnum = 16384;
  i_bitmap_blk = 1;
  d_bitmap_blk = 2;
  i_start_blk = 3;
  d_start_blk = 67;
}

inode_bitmap : HasBitmap disk 1
unfolding bio_read
inode_bitmap = record { is_opened = refl; whole = λ i. ground arith }

data_bitmap : HasBitmap disk 2
unfolding bio_read
data_bitmap = record { is_opened = refl; whole = λ i. ground arith }

get_avail_ino-Takes_example :
    (r : ℕ) × (d : Disk) × (get_avail_ino super disk ≡ ok (r, d)) × (r ≤ 5) × Takes disk 1 128 1 r d
unfolding bio_read bit_of
get_avail_ino-Takes_example =
    get_avail_ino-Takes super disk 5 inode_bitmap (omega arith) (omega arith) refl

abbrev surroundings : Surroundings
surroundings = record {
  opens = true;
  fresh_super = λ _. 7;
  fresh_inodes = λ _. 255;
  fresh_data = λ _. 7;
  fresh_root = λ _. 7;
  uid = 1000;
  gid = 1000;
  now = 1700000000;
}

abbrev no_disk : Disk
no_disk = record { bytes = λ _. 0; blocks = 0; diskfile = unopened }

rufs_mkfs-IsFormatted_example :
    (d : Disk) × (rufs_mkfs surroundings no_disk ≡ ok (made_super, d)) × IsFormatted made_super d
rufs_mkfs-IsFormatted_example =
    rufs_mkfs-IsFormatted surroundings no_disk refl refl (λ i. omega arith) (λ i. omega arith)

rufs_init-root_example :
    (d : Disk) × (rufs_init false surroundings (λ _ _. 9) no_disk ≡ ok (made_super, d))
    × IsDirectory made_super d 1
    × HasName made_super d 1 curr_dir 1
    × HasName made_super d 1 parent_dir 1
rufs_init-root_example =
    rufs_init-root surroundings (λ _ _. 9) no_disk refl refl (λ i. omega arith) (λ i. omega arith)

-- The root has a block, 100, whose first entry is ".", of one byte.
abbrev disk_dot : Disk
disk_dot = record disk {
  bytes = update (update (update (store_word disk.bytes 12560 100) 409602 1) 409604 46) 409854 1;
}

dir_find-Finds_example :
    Finds disk_dot (readi super disk_dot 1) (46 ∷ []) 1 (dir_find super disk_dot 1 (46 ∷ []) 1)
dir_find-Finds_example = dir_find-Finds super disk_dot 1 (46 ∷ []) 1
