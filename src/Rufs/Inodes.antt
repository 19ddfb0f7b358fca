-- ===== src/Rufs/Inodes.antt =====
-- `readi` and `writei` of project4/rufs.c, on the 256 bytes of a `struct inode`.
pub mod RoundTrip
use cs.Prelude.{
  ℕ, zero, suc, ◌+◌, ◌-◌, ◌*◌, ◌/◌, ◌%◌, ◌^◌, ◌≤◌, ◌<◌, bit_and, bit_or, ◌≡◌, refl, sym, ap, ◌∙◌,
  fun_ext, ◌≢◌, ◌↔◌, ◌⊎◌, inl, inr, Bool, true, false, ◌&&◌, ◌||◌, Option, none, some, List, [],
  ◌∷◌, ◌++◌, arith, ltb, leb, ◌==◌, if◌then◌else◌, ==_iff, ==_refl, ==_of_ne, Bool-cases, update, ℤ,
  pos, negsuc, signed_char, shift_right, rem_two, is_zero, is_one, Outcome, ok, exits, fault,
  out_of_fuel, ◌>>=◌, >>=-eq-ok,
}
use cs.Memory.{Mem}
use cs.Rufs.Disk.{Disk, block_size, bio_read, bio_write}
use cs.Rufs.Alloc.{Superblock}

-- `sizeof(struct inode)`.
abbrev pub inode_size : ℕ
inode_size = 256

unfoldable pub inode_block : Superblock → ℕ → ℕ
inode_block s ino = s.i_start_blk + ino * inode_size / block_size

unfoldable pub inode_offset : ℕ → ℕ
inode_offset ino = ino * inode_size % block_size / inode_size

-- The bytes of the inode, from 0; behind them the function is 0.
unfoldable pub readi : Superblock → Disk → ℕ → Mem
readi s d ino k =
    if ltb k inode_size
    then (bio_read d (inode_block s ino)).1 (inode_size * inode_offset ino + k)
    else 0

unfoldable pub with_inode : Mem → ℕ → Mem → Mem
with_inode block offset inode x =
    if leb (inode_size * offset) x && ltb x (inode_size * offset + inode_size)
    then inode (x - inode_size * offset)
    else block x

unfoldable pub writei : Superblock → Disk → ℕ → Mem → Disk
writei s d ino inode =
    let block = (bio_read d (inode_block s ino)).1 in
    (bio_write d (inode_block s ino) (with_inode block (inode_offset ino) inode)).1
