-- ===== src/Rufs/Fuse/Make/Created.antt =====
-- What `rufs_create` leaves of a file that it makes.
use cs.Prelude.{
  ℕ, ◌/◌, ◌%◌, ◌≤◌, ◌<◌, ◌≡◌, refl, sym, ap, ◌∙◌, ◌≢◌, false, some, List, arith, ◌==◌, ==_of_ne,
  pos, ok, length,
}
use cs.Memory.{Mem}
use cs.Rufs.Disk.{Disk}
use cs.Rufs.Alloc.{Superblock, get_avail_ino}
use cs.Rufs.Alloc.Takes.{disk_bit, get_avail_ino-Takes}
use cs.Rufs.Inodes.{readi, writei}
use cs.Rufs.Inodes.RoundTrip.{readi-writei}
use cs.Bitmap.Bits.{bit_of}
use cs.Rufs.Directory.{load_half, direct_ptr, dir_find, dir_add, get_node_by_path}
use cs.Rufs.Directory.RoundTrip.{dir_find-dir_add}
use cs.Rufs.Directory.Paths.{dir_find-ext}
use cs.Rufs.Fuse.{Fresh, base_name, dir_name}
use cs.Rufs.Fuse.Make.{claim_name, new_inode, s_ifreg, rufs_create}
use cs.Rufs.Fuse.Make.Volume.{
  HasRoom, same_inode, same_block, same_directory, Takes-IsDirectory, write_other-SameDirectory,
}

-- The file `r` has the name in the directory, and its bytes are those of a new inode.
pub record Created (s : Superblock) (w : Fresh) (d : Disk) (dir : ℕ) (name : List ℕ) (mode r : ℕ)
    (d' : Disk) : Type 0 where
  pub entry : Mem
  pub found : dir_find s d' dir name (length name) ≡ (0, some entry)
  pub number : load_half entry 0 ≡ r
  pub was_free : disk_bit d s.i_bitmap_blk r ≡ 0
  pub in_range : (1 ≤ r) × (r < 1024)
  pub bytes : (k : ℕ) → k < 256 → readi s d' r k ≡ new_inode w r s_ifreg 1 mode k

create_steps :
    (s : Superblock) (w : Fresh) (path : List ℕ) (mode : ℕ) (d d1 d2 : Disk) (inode : Mem)
    (dir r : ℕ)
    → get_node_by_path s d (dir_name path) 1 ≡ (0, some inode)
    → load_half inode 0 ≡ dir
    → (dir_find s d dir (base_name path) (length (base_name path))).0 ≢ 0
    → get_avail_ino s d ≡ ok (r, d1)
    → dir_add s d1 (w.entries 0) inode r (base_name path) (length (base_name path)) ≡ ok (0, d2)
    → rufs_create s w path mode d ≡ ok (pos 0, writei s d2 r (new_inode w r s_ifreg 1 mode))
unfolding rufs_create claim_name
create_steps s w path mode d d1 d2 inode dir r found own missing run added =
    let new_name : ((dir_find s d (load_half inode 0) (base_name path) (length (base_name path))).0
          == 0)
        ≡ false =
      ap (λ n. (dir_find s d n (base_name path) (length (base_name path))).0 == 0) own
      ∙ ==_of_ne (dir_find s d dir (base_name path) (length (base_name path))).0 0 missing in
    rw (claim_name, found) (rw new_name (rw run (rw added refl)))

-- Where the directory of the path is found and has room for the name, `rufs_create` returns 0, the
-- name is then in the directory, with an inode that was free, and that inode is the new one, byte
-- for byte.
pub rufs_create-Created :
    (s : Superblock) (w : Fresh) (path : List ℕ) (mode : ℕ) (d : Disk)
    (dir free_ino free_block unused : ℕ)
    → get_node_by_path s d (dir_name path) 1 ≡ (0, some (readi s d dir))
    → HasRoom s d dir (base_name path) free_ino free_block unused
    → (r : ℕ) × (d' : Disk) × (rufs_create s w path mode d ≡ ok (pos 0, d'))
      × Created s w d dir (base_name path) mode r d'
rufs_create-Created s w path mode d dir free_ino free_block unused found room =
    let name = base_name path in
    let (lo, hi) = room.ino_in_range in
    let (r, d1, run, upto, takes) =
      get_avail_ino-Takes s d free_ino room.volume.inode_bits lo hi room.ino_free in
    let same = same_inode s d d1 dir r room.volume room.directory room.in_range takes in
    let there = same_directory s d d1 dir r room.volume room.directory room.in_range takes in
    let (d2, e, added, directory, is_there, number) =
      dir_find-dir_add s d1 (w.entries 0) dir r name (length name) free_block unused
        (Takes-IsDirectory s d d1 dir r room.volume room.directory room.in_range takes)
        (λ z.
          room.no_name (sym (ap (λ p. p.0) (dir_find-ext s d d1 dir name (length name) there)) ∙ z))
        (omega arith) (omega (arith, room.short)) room.short room.block_in_range
        (ap (λ m. bit_of (m (free_block / 8)) (free_block % 8))
            (same_block s d d1 dir r room.volume room.directory room.in_range takes s.d_bitmap_blk
              room.volume.bits_differ)
          ∙ room.block_free)
        room.unused_in_range (ap (λ m. direct_ptr m unused) same ∙ room.unused_pointer) in
    let inode = new_inode w r s_ifreg 1 mode in
    let other : dir ≢ r = λ z.
      differ (disk_bit d s.i_bitmap_blk r) takes.was_clear
        (ap (disk_bit d s.i_bitmap_blk) (sym z) ∙ room.in_use) in
    (
      r,
      writei s d2 r inode,
      create_steps s w path mode d d1 d2 (readi s d dir) dir r found room.directory.own_number
          room.no_name run
          (ap (λ m. dir_add s d1 (w.entries 0) m r name (length name)) (sym same) ∙ added),
      record {
        entry = e;
        found =
            dir_find-ext s d2 (writei s d2 r inode) dir name (length name) (
              write_other-SameDirectory s d2 dir r inode directory other
                (room.volume.inodes_apart r (omega arith)).1)
            ∙ is_there;
        number = number;
        was_free = takes.was_clear;
        in_range = (takes.from_low, omega arith);
        bytes = λ k lt. readi-writei s d2 r inode k directory.has_bitmap.is_opened lt;
      },
    )
  where
    differ : (x : ℕ) → x ≡ 0 → x ≢ 1
    differ x e z = omega arith
