-- ===== src/Rufs/Directory/RoundTrip.antt =====
-- `dir_find` of a name that `dir_add` put in a directory.

use cs.Prelude.{ℕ, ◌<◌, ◌≡◌, ◌≢◌, some, List, ok, length}
use cs.Memory.{Mem}
use cs.Rufs.Disk.{Disk}
use cs.Rufs.Alloc.{Superblock}
use cs.Rufs.Alloc.Takes.{disk_bit}
use cs.Rufs.Inodes.{readi}
use cs.Rufs.Directory.{direct_ptr, no_block, load_half, dir_find, dir_add}
use cs.Rufs.Directory.Added.{dir_find-HasEntry}
use cs.Rufs.Directory.WellFormed.{IsDirectory}
use cs.Rufs.Directory.Inserted.{adds, added}

-- To a directory with fewer than 16 blocks, on a disk with a free data block, where the blocks of
-- bitmaps, inodes and data lie apart, a name of less than 250 bytes that `dir_find` does not find
-- there can be added: `dir_add` ends well, the directory stays well-formed, and `dir_find` then finds
-- the name with the number that was added.
pub dir_find-dir_add :
    (s : Superblock) (d : Disk) (fresh : Mem) (ino f_ino : ℕ) (fname : List ℕ)
    (len free_block unused : ℕ)
    → IsDirectory s d ino
    → (dir_find s d ino fname len).0 ≢ 0
    → f_ino < 65536
    → len < 65536
    → length fname < 250
    → free_block < 16384
    → disk_bit d s.d_bitmap_blk free_block ≡ 0
    → unused < 16
    → direct_ptr (readi s d ino) unused ≡ no_block
    → (d' : Disk) × (e : Mem) × (dir_add s d fresh (readi s d ino) f_ino fname len ≡ ok (0, d'))
      × IsDirectory s d' ino
      × (dir_find s d' ino fname len ≡ (0, some e))
      × (load_half e 0 ≡ f_ino)
dir_find-dir_add s d fresh ino f_ino fname len free_block unused dir missing small fits short inside
      clear lt nothing =
    elim (added s d fresh ino f_ino fname len dir missing small fits short free_block unused inside
      clear lt nothing) [
        | adds d' b k j run still h keeps grows ↦
            let (e, found, number) = dir_find-HasEntry s d' ino f_ino fname len b k j h in
            (d', e, run, still, found, number)
      ]
