-- ===== src/Rufs/Fuse/Transfer.antt =====
-- `rufs_read` and `rufs_write` of project4/rufs.c. An index behind the 16 direct pointers of an
-- inode is a fault.
pub mod Rounds
pub mod OneBlock
pub mod RoundTrip
pub mod Repeats
use cs.Prelude.{
  ℕ, zero, suc, ◌+◌, ◌-◌, ◌*◌, ◌/◌, ◌%◌, ◌^◌, true, false, ◌&&◌, none, some, List, [], ◌∷◌, ltb,
  leb, ◌==◌, if◌then◌else◌, ℤ, Outcome, ok, fault, ◌>>=◌, length,
}
use cs.Memory.{Mem, load_word, store_word}
use cs.Rufs.Disk.{Disk, bio_read, bio_write}
use cs.Rufs.Alloc.{Superblock, get_avail_blkno}
use cs.Rufs.Inodes.{writei}
use cs.Rufs.Directory.{load_half, load_long, store_long, direct_ptr, no_block, get_node_by_path}
use cs.Rufs.Fuse.{minus_enoent, int_of}

-- `ceil(size / BLOCK_SIZE)`.
abbrev pub blocks_for : ℕ → ℕ
blocks_for size = (size + 4095) / 4096

-- The loop of `rufs_read`: `n` blocks from `i` on, one after the other from `at` on.
unfoldable pub read_blocks : Disk → Mem → ℕ → ℕ → ℕ → Mem → Outcome Mem
read_blocks d inode at i zero m = ok m
read_blocks d inode at i (suc n) m = elim (ltb i 16) [
  | false ↦ fault
  | true ↦
      let block = (bio_read d (direct_ptr inode i)).1 in
      read_blocks d inode (at + 4096) (i + 1) n
        (λ x. if leb at x && ltb x (at + 4096) then block (x - at) else m x)
]

-- The return value and the first `size` bytes of the buffer, whose fresh copy is `blocks`. A copy
-- from behind the blocks that were read is a fault.
unfoldable pub rufs_read : Superblock → Disk → Mem → List ℕ → ℕ → ℕ → Outcome (ℤ × Mem)
rufs_read s d blocks path size offset = elim (get_node_by_path s d path 1).1 [
  | none ↦ ok (minus_enoent, blocks)
  | some inode ↦ read_blocks d inode 0 (offset / 4096) (blocks_for size) blocks >>= λ m.
      if leb (offset % 4096 + size) (4096 * blocks_for size)
      then ok (int_of size, λ k. m (offset % 4096 + k))
      else fault
]

-- The byte of a string at a place: the NUL stands behind the last one.
unfoldable pub byte_at : List ℕ → ℕ → ℕ
byte_at [] k = 0
byte_at (c ∷ cs) zero = c
byte_at (c ∷ cs) (suc k) = byte_at cs k

abbrev pub min : ℕ → ℕ → ℕ
min a b = if leb a b then a else b

-- The bytes that the round writes, of `left` from `off` on.
abbrev pub bytes_in_block : ℕ → ℕ → ℕ
bytes_in_block off left = if leb 4096 left then 4096 - off else min (4096 - off) left

-- `memcpy(block + off, temp, count)`.
unfoldable pub overlay : Mem → ℕ → List ℕ → ℕ → Mem
overlay block off temp count x =
    if leb off x && ltb x (off + count) then byte_at temp (x - off) else block x

-- The inode with a block at the index `i`, a new one where there was none.
unfoldable pub with_block : Superblock → Mem → ℕ → Disk → Outcome (Mem × Disk)
with_block s inode i d =
    if direct_ptr inode i == no_block
    then get_avail_blkno s d >>= (λ (b, d'). ok (store_word inode (16 + 4 * i) b, d'))
    else ok (inode, d)

-- The loop of `rufs_write`, with the inode. The pointer `temp` stays at the start of the copy of
-- the buffer, which is as long as the string in it and its NUL: a longer `memcpy` is a fault.
unfoldable pub write_blocks :
    Superblock → List ℕ → (rounds i off left : ℕ) → Mem → Disk → Outcome (Mem × Disk)
write_blocks s temp zero i off left inode d = ok (inode, d)
write_blocks s temp (suc n) i off left inode d = elim (ltb i 16) [
  | false ↦ fault
  | true ↦ with_block s inode i d >>= λ (inode', d').
      let b = direct_ptr inode' i in
      let count = bytes_in_block off left in
      elim (leb count (length temp + 1)) [
        | false ↦ fault
        | true ↦
            write_blocks s temp n (i + 1) 0 (left - count) inode'
              (bio_write d' b (overlay (bio_read d' b).1 off temp count)).1
      ]
]

-- `size`, `vstat.st_size` and `vstat.st_mtime`.
unfoldable pub grown : Mem → ℕ → ℕ → Mem
grown inode size now =
    let m = store_word inode 4 ((load_word inode 4 + size) % 2 ^ 32) in
    store_long (store_long m 160 ((load_long m 160 + size) % 2 ^ 64)) 200 now

abbrev pub rounds_for : ℕ → ℕ → ℕ
rounds_for size offset = if offset % 4096 == 0 then blocks_for size else blocks_for size + 1

unfoldable pub rufs_write :
    Superblock → ℕ → List ℕ → List ℕ → (size offset : ℕ) → Disk → Outcome (ℤ × Disk)
rufs_write s now path buffer size offset d = elim (get_node_by_path s d path 1).1 [
  | none ↦ ok (minus_enoent, d)
  | some inode ↦ do
    r ← write_blocks s buffer (rounds_for size offset) (offset / 4096) (offset % 4096) size inode d
    let inode' = grown r.0 size now
    ok (int_of size, writei s r.1 (load_half inode' 0) inode')
]
