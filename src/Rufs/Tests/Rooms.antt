-- ===== src/Rufs/Tests/Rooms.antt =====
-- Runs of `dir_add` and `rufs_create` of project4/rufs.c on a disk with an empty root.
use cs.Prelude.{
  ℕ, ◌<◌, bit_or, ◌≡◌, refl, ◌≢◌, ◌&&◌, some, List, [], ◌∷◌, arith, ltb, leb, ◌==◌, if◌then◌else◌,
  ==_iff, pos, ok, holds_below, holds_below_at,
}
use cs.Memory.{Mem, load_word}
use cs.Rufs.Disk.{Disk, opened, bio_read}
use cs.Rufs.Alloc.{Superblock}
use cs.Rufs.Alloc.Takes.{HasBitmap}
use cs.Rufs.Inodes.{readi, inode_block, inode_offset}
use cs.Rufs.Directory.{load_half, direct_ptr, no_block, first_in_blocks, dir_find, dir_add}
use cs.Rufs.Directory.WellFormed.{IsDirectory}
use cs.Rufs.Directory.RoundTrip.{dir_find-dir_add}
use cs.Bitmap.Bits.{bit_of}
use cs.Rufs.Fuse.{Fresh, slash}
use cs.Rufs.Fuse.Names.{empty, also}
use cs.Rufs.Fuse.Attributes.{Stat, rufs_getattr}
use cs.Rufs.Fuse.Make.{s_ifreg, rufs_create}
use cs.Rufs.Fuse.Make.Volume.{IsVolume, HasRoom}
use cs.Rufs.Fuse.Make.Attributes.{rufs_getattr-rufs_create}

abbrev super : Superblock
super = record {
  magic_num = 23610;
  max_inum = 1024;
  max_dnum = 16384;
  i_bitmap_blk = 1;
  d_bitmap_blk = 2;
  i_start_blk = 3;
  d_start_blk = 67;
}

-- Inode 1 is in use, and has no block.
abbrev disk : Disk
disk = record {
  bytes = λ x.
      if x == 4096
      then 2
      else if x == 12544
      then 1
      else if leb 12560 x && ltb x 12624
      then 255
      else 0;
  blocks = 8192;
  diskfile = opened;
}

root_pointer : (k : ℕ) → k < 16 → direct_ptr (readi super disk 1) k ≡ no_block
unfolding direct_ptr readi load_word bio_read inode_block inode_offset holds_below
root_pointer k lt =
    (==_iff (direct_ptr (readi super disk 1) k) no_block).0
      (holds_below_at 16 (λ i. direct_ptr (readi super disk 1) i == no_block) k refl lt)

bitmap : (b : ℕ) → HasBitmap disk b
unfolding bio_read
bitmap b = record { is_opened = refl; whole = λ i. ground arith }

root-IsDirectory : IsDirectory super disk 1
unfolding load_half readi bio_read inode_block inode_offset
root-IsDirectory = record {
  has_bitmap = bitmap 2;
  own_number = refl;
  bitmap_first = omega arith;
  inode_first = omega arith;
  bitmap_apart = λ z. omega arith;
  few = omega arith;
  data_blocks = λ k lt there. absurd (there (root_pointer k lt));
}

abbrev a_name : List ℕ
a_name = 97 ∷ []

no_a : (dir_find super disk 1 a_name 1).0 ≡ 2
unfolding dir_find first_in_blocks direct_ptr readi load_word bio_read inode_block inode_offset
no_a = refl

not_zero : (x : ℕ) → x ≡ 2 → x ≢ 0
not_zero x e z = omega arith

dir_find-dir_add_example :
    (d : Disk) × (e : Mem) × (dir_add super disk (λ _. 9) (readi super disk 1) 7 a_name 1
      ≡ ok (0, d))
    × IsDirectory super d 1
    × (dir_find super d 1 a_name 1 ≡ (0, some e))
    × (load_half e 0 ≡ 7)
unfolding bio_read bit_of
dir_find-dir_add_example =
    dir_find-dir_add super disk (λ _. 9) 1 7 a_name 1 9 0 root-IsDirectory
      (not_zero (dir_find super disk 1 a_name 1).0 no_a) (omega arith) (omega arith) (omega arith)
      (omega arith) refl (omega arith) (root_pointer 0 (omega arith))

volume : IsVolume super disk
unfolding inode_block
volume = record {
  inode_bits = bitmap 1;
  bits_first = omega arith;
  bits_differ = λ z. omega arith;
  inodes_apart = λ i lt. (λ z. omega arith, omega arith);
}

room : HasRoom super disk 1 a_name 5 9 0
unfolding bio_read bit_of
room = record {
  volume = volume;
  directory = root-IsDirectory;
  in_range = omega arith;
  in_use = refl;
  no_name = not_zero (dir_find super disk 1 a_name 1).0 no_a;
  short = omega arith;
  ino_in_range = (omega arith, omega arith);
  ino_free = refl;
  block_in_range = omega arith;
  block_free = refl;
  unused_in_range = omega arith;
  unused_pointer = root_pointer 0 (omega arith);
}

abbrev fresh : Fresh
fresh = record { inode = λ _. 9; entries = λ _ _. 9; uid = 1000; gid = 100; now = 7 }

abbrev no_stat : Stat
no_stat = record { st_uid = 0; st_gid = 0; st_nlink = 0; st_size = 0; st_mode = 0; st_mtime = 0 }

rufs_getattr-rufs_create_example :
    (d : Disk) × (rufs_create super fresh (slash ∷ a_name) 420 disk ≡ ok (pos 0, d))
    × (rufs_getattr super d 8 (slash ∷ a_name) no_stat ≡ (
      pos 0,
      record {
        st_uid = 1000;
        st_gid = 100;
        st_nlink = 1;
        st_size = 0;
        st_mode = bit_or s_ifreg 420;
        st_mtime = 8;
      },
    ))
rufs_getattr-rufs_create_example =
    rufs_getattr-rufs_create super fresh 97 [] 420 8 no_stat disk 5 9 0
      (also (λ z. omega arith) empty) room (omega arith) (omega arith) (omega arith)
