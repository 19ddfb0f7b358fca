-- ===== src/Rufs/Fuse/Transfer/RoundTrip.antt =====
-- What `rufs_read` gives after `rufs_write`, at the start of a block.
use cs.Prelude.{
  ℕ, suc, ◌+◌, ◌-◌, ◌*◌, ◌/◌, ◌%◌, ◌≤◌, ◌<◌, ◌≡◌, refl, sym, ap, ◌∙◌, ◌≢◌, true, ◌&&◌, some, List,
  arith, ltb, leb, if◌then◌else◌, ok, length,
}
use cs.Memory.{Mem}
use cs.Rufs.Disk.{Disk, bio_read, bio_write}
use cs.Rufs.Alloc.{Superblock}
use cs.Rufs.Inodes.{readi}
use cs.Rufs.Directory.{direct_ptr, no_block, get_node_by_path}
use cs.Rufs.Directory.Paths.{get_node_by_path-Resolves}
use cs.Rufs.Fuse.{int_of}
use cs.Rufs.Fuse.Transfer.{
  blocks_for, byte_at, bytes_in_block, overlay, read_blocks, write_blocks, rounds_for, rufs_read,
  rufs_write,
}
use cs.Rufs.Fuse.Transfer.Rounds.{write_round, overlay-inside, write_steps, IsApart}
use cs.Rufs.Fuse.Transfer.OneBlock.{HasBlock, with_write, found_after, pointer_after, block_after}

abbrev copied : Mem → ℕ → Mem → Mem
copied block at m x = if leb at x && ltb x (at + 4096) then block (x - at) else m x

read_round :
    (d : Disk) (inode : Mem) (at i n : ℕ) (m : Mem)
    → i < 16
    → read_blocks d inode at i (suc n) m
      ≡ read_blocks d inode (at + 4096) (i + 1) n (copied (bio_read d (direct_ptr inode i)).1 at m)
unfolding read_blocks
read_round d inode at i n m lt =
    let below : ltb i 16 ≡ true = ground arith in rw (read_blocks, below) refl

read_steps :
    (s : Superblock) (d : Disk) (blocks m : Mem) (path : List ℕ) (size offset : ℕ) (inode : Mem)
    → get_node_by_path s d path 1 ≡ (0, some inode)
    → read_blocks d inode 0 (offset / 4096) (blocks_for size) blocks ≡ ok m
    → offset % 4096 + size ≤ 4096 * blocks_for size
    → rufs_read s d blocks path size offset ≡ ok (int_of size, λ k. m (offset % 4096 + k))
unfolding rufs_read
read_steps s d blocks m path size offset inode found run fits =
    let inside : leb (offset % 4096 + size) (4096 * blocks_for size) ≡ true = ground arith in
    rw (rufs_read, found) (rw run (rw inside refl))

copied-inside :
    (block m : Mem) (off k : ℕ) → off + k < 4096 → copied block 0 m (off + k) ≡ block (off + k)
copied-inside block m off k lt = ground arith

-- A read of at most a block from the start of one.
read_one :
    (s : Superblock) (d : Disk) (blocks : Mem) (path : List ℕ) (size offset : ℕ) (inode : Mem)
    → get_node_by_path s d path 1 ≡ (0, some inode)
    → offset % 4096 ≡ 0
    → offset / 4096 < 16
    → 1 ≤ size
    → size ≤ 4096
    → (m : Mem) × (rufs_read s d blocks path size offset ≡ ok (int_of size, m))
      × ((k : ℕ) → k < size → m k ≡ (bio_read d (direct_ptr inode (offset / 4096))).1 k)
unfolding read_blocks
read_one s d blocks path size offset inode found aligned lt some_byte small =
    let block = (bio_read d (direct_ptr inode (offset / 4096))).1 in
    let one : blocks_for size ≡ 1 = omega arith in
    let run : read_blocks d inode 0 (offset / 4096) (blocks_for size) blocks
        ≡ ok (copied block 0 blocks) =
      ap (λ n. read_blocks d inode 0 (offset / 4096) n blocks) one
      ∙ read_round d inode 0 (offset / 4096) 0 blocks lt in
    (
      λ k. copied block 0 blocks (offset % 4096 + k),
      read_steps s d blocks (copied block 0 blocks) path size offset inode found run (omega arith),
      λ k h.
          copied-inside block blocks (offset % 4096) k (omega arith)
          ∙ ap block (at_start (offset % 4096) k aligned),
    )
  where
    at_start : (off k : ℕ) → off ≡ 0 → off + k ≡ k
    at_start off k e = omega arith

-- A write of at most a block at the start of one.
write_one :
    (s : Superblock) (now : ℕ) (path buffer : List ℕ) (size offset n b : ℕ) (d : Disk)
    → HasBlock s d path offset n b
    → offset % 4096 ≡ 0
    → 1 ≤ size
    → size ≤ 4096
    → size ≤ length buffer + 1
    → rufs_write s now path buffer size offset d
      ≡ ok (int_of size, with_write s d n b (overlay (bio_read d b).1 0 buffer size) size now)
unfolding write_blocks
write_one s now path buffer size offset n b d has aligned some_byte small fits =
    let inode = readi s d n in
    let one : rounds_for size offset ≡ 1 = ground arith in
    let whole : bytes_in_block 0 size ≡ size = ground arith in
    let there : direct_ptr inode (offset / 4096) ≢ no_block =
      λ z. has.is_block (sym has.pointer ∙ z) in
    let room : bytes_in_block 0 size ≤ length buffer + 1 = omega (arith, whole) in
    write_steps s now path buffer size offset n d
      (bio_write d b (overlay (bio_read d b).1 0 buffer size)).1
      (get_node_by_path-Resolves s d (IsApart s d n b) path n has.at_path) has.own_number
      (ap (λ r. write_blocks s buffer r (offset / 4096) (offset % 4096) size inode d) one
        ∙ ap (λ o. write_blocks s buffer 1 (offset / 4096) o size inode d) aligned
        ∙ write_round s buffer 0 (offset / 4096) 0 size inode d has.in_range there room
        ∙ ap
            (λ c. ok (
              inode,
              (bio_write d c (overlay (bio_read d c).1 0 buffer (bytes_in_block 0 size))).1,
            ))
            has.pointer
        ∙ ap (λ c. ok (inode, (bio_write d b (overlay (bio_read d b).1 0 buffer c)).1)) whole)

-- For a file whose block at the offset, the start of a block, is allocated and lies apart from the
-- inodes and the directories on the path, a write of 1 to 4096 bytes of a string at least as long
-- and a read of as many bytes there both return the number of bytes, and the read gives the bytes
-- that were written.
pub rufs_read-rufs_write :
    (s : Superblock) (now : ℕ) (blocks : Mem) (path buffer : List ℕ) (size offset n b : ℕ)
    (d : Disk)
    → HasBlock s d path offset n b
    → offset % 4096 ≡ 0
    → 1 ≤ size
    → size ≤ 4096
    → size ≤ length buffer
    → (d' : Disk) × (m : Mem) × (rufs_write s now path buffer size offset d ≡ ok (int_of size, d'))
      × (rufs_read s d' blocks path size offset ≡ ok (int_of size, m))
      × ((k : ℕ) → k < size → m k ≡ byte_at buffer k)
rufs_read-rufs_write s now blocks path buffer size offset n b d has aligned some_byte small fits =
    let block = overlay (bio_read d b).1 0 buffer size in
    let d' = with_write s d n b block size now in
    let (m, run, same) =
      read_one s d' blocks path size offset (readi s d' n)
        (found_after s d path offset n b block size now has) aligned has.in_range some_byte small in
    (
      d',
      m,
      write_one s now path buffer size offset n b d has aligned some_byte small (omega arith),
      run,
      λ k lt.
          same k lt
          ∙ ap (λ c. (bio_read d' c).1 k) (pointer_after s d path offset n b block size now has)
          ∙ block_after s d path offset n b block size now has k (omega arith)
          ∙ overlay-inside (bio_read d b).1 buffer size k lt,
    )
