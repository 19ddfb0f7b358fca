-- ===== src/Rufs/Directory/Frame.antt =====
-- What `dir_add` leaves of the other names of a directory.

use cs.Prelude.{ℕ, ◌<◌, ◌≡◌, ◌≢◌, List, ok, length}
use cs.Memory.{Mem}
use cs.Rufs.Disk.{Disk}
use cs.Rufs.Alloc.{Superblock}
use cs.Rufs.Alloc.Takes.{disk_bit}
use cs.Rufs.Inodes.{readi}
use cs.Rufs.Directory.{direct_ptr, no_block, dir_find, dir_add}
use cs.Rufs.Directory.WellFormed.{IsDirectory}
use cs.Rufs.Directory.Others.{NoZero}
use cs.Rufs.Directory.Keeping.{BlocksUsed}
use cs.Rufs.Directory.Inserted.{adds, added}
use cs.Rufs.Directory.Others.{SameFound, dir_find-KeptAt}
use cs.Rufs.Directory.Keeping.{BlocksUsed}

-- Under the conditions under which a name can be added to a directory, and where its blocks are
-- marked as used: behind `dir_add` any other name of less than 250 bytes, both without a zero byte,
-- is found or not as before, with the same 256 bytes of its entry, and the blocks of the directory
-- are marked as used.
pub dir_find_other-dir_add :
    (s : Superblock) (d : Disk) (fresh : Mem) (ino f_ino : ℕ) (fname other : List ℕ)
    (len len' free_block unused : ℕ)
    → IsDirectory s d ino
    → BlocksUsed s d ino
    → (dir_find s d ino fname len).0 ≢ 0
    → f_ino < 65536
    → len < 65536
    → length fname < 250
    → free_block < 16384
    → disk_bit d s.d_bitmap_blk free_block ≡ 0
    → unused < 16
    → direct_ptr (readi s d ino) unused ≡ no_block
    → NoZero fname
    → NoZero other
    → other ≢ fname
    → length other < 250
    → (d' : Disk) × (dir_add s d fresh (readi s d ino) f_ino fname len ≡ ok (0, d'))
      × SameFound (dir_find s d ino other len') (dir_find s d' ino other len')
      × BlocksUsed s d' ino
dir_find_other-dir_add s d fresh ino f_ino fname other len len' free_block unused dir used missing
      small fits short inside clear lt nothing no_f no_o ne short' =
    elim (added s d fresh ino f_ino fname len dir missing small fits short free_block unused inside
      clear lt nothing) [
        | adds d' b k j run still h keeps grows ↦ (
          d',
          run,
          dir_find-KeptAt s d d' ino other len' (keeps used other len' no_f no_o ne short'),
          grows.used used,
        )
      ]
