-- ===== src/Rufs/Fuse/Transfer/Repeats.antt =====
-- What `rufs_write` leaves in each block of a file when it writes more than one.
use cs.Prelude.{
  ℕ, zero, suc, ◌+◌, ◌-◌, ◌*◌, ◌/◌, ◌%◌, ◌≤◌, ◌<◌, ◌≡◌, refl, ap, ◌∙◌, ◌≢◌, some, List, arith, ok,
  length,
}
use cs.Memory.{Mem}
use cs.Rufs.Disk.{Disk, opened, bio_read, bio_write}
use cs.Rufs.Disk.Blocks.{bio_read-bio_write, bio_read-bio_write_other}
use cs.Rufs.Alloc.{Superblock}
use cs.Rufs.Inodes.{readi, writei, inode_block}
use cs.Rufs.Directory.{load_half, direct_ptr, no_block, get_node_by_path}
use cs.Rufs.Directory.Rewrites.{bio_read-writei}
use cs.Rufs.Fuse.{int_of}
use cs.Rufs.Fuse.Transfer.{
  blocks_for, byte_at, bytes_in_block, overlay, write_blocks, grown, rounds_for, rufs_write,
}
use cs.Rufs.Fuse.Transfer.Rounds.{write_round, overlay-inside, write_steps}

-- The inode has `n` blocks from the index `i` on, each a block of its own.
pub record HasBlocks (inode : Mem) (i n : ℕ) : Type 0 where
  pub in_range : i + n ≤ 16
  pub allocated : (k : ℕ) → i ≤ k → k < i + n → direct_ptr inode k ≢ no_block
  pub distinct : (k l : ℕ) → i ≤ k → k < l → l < i + n → direct_ptr inode k ≢ direct_ptr inode l

later_blocks : (inode : Mem) (i n : ℕ) → HasBlocks inode i (suc n) → HasBlocks inode (i + 1) n
later_blocks inode i n has = record {
  in_range = omega (arith, has.in_range);
  allocated = λ k lo hi. has.allocated k (omega arith) (omega arith);
  distinct = λ k l lo lt hi. has.distinct k l (omega arith) lt (omega arith);
}

-- Each of the `n` blocks holds the start of the string, as far as `left` bytes go.
record Repeated (temp : List ℕ) (i n left : ℕ) (inode : Mem) (d d' : Disk) : Type 0 where
  run : (s : Superblock) → write_blocks s temp n i 0 left inode d ≡ ok (inode, d')
  open_still : d'.diskfile ≡ opened
  starts :
      (j x : ℕ)
      → j < n
      → x < 4096
      → 4096 * j + x < left
      → (bio_read d' (direct_ptr inode (i + j))).1 x ≡ byte_at temp x
  others :
      (c x : ℕ)
      → ((k : ℕ) → i ≤ k → k < i + n → c ≢ direct_ptr inode k)
      → x < 4096
      → (bio_read d' c).1 x ≡ (bio_read d c).1 x

-- The first block, and those behind it.
starts_all :
    (temp : List ℕ) (n i left : ℕ) (inode : Mem) (d' : Disk)
    → ((x : ℕ) → x < 4096 → x < left → (bio_read d' (direct_ptr inode i)).1 x ≡ byte_at temp x)
    → ((j x : ℕ)
        → j < n
        → x < 4096
        → 4096 * j + x < left - bytes_in_block 0 left
        → (bio_read d' (direct_ptr inode (i + 1 + j))).1 x ≡ byte_at temp x)
    → (j x : ℕ) → j < suc n
    → x < 4096
    → 4096 * j + x < left
    → (bio_read d' (direct_ptr inode (i + j))).1 x ≡ byte_at temp x
starts_all temp n i left inode d' first later zero x lt small within =
    ap (λ k. (bio_read d' (direct_ptr inode k)).1 x) (plus_zero i) ∙ first x small (omega arith)
  where
    plus_zero : (i : ℕ) → i + zero ≡ i
    plus_zero i = omega arith
starts_all temp n i left inode d' first later (suc j) x lt small within =
    ap (λ k. (bio_read d' (direct_ptr inode k)).1 x) (plus_suc i j)
    ∙ later j x (omega arith) small (ground arith)
  where
    plus_suc : (i j : ℕ) → i + suc j ≡ i + 1 + j
    plus_suc i j = omega arith

write_blocks-Repeated :
    (temp : List ℕ) (n i left : ℕ) (inode : Mem) (d : Disk)
    → d.diskfile ≡ opened
    → HasBlocks inode i n
    → left ≤ length temp
    → (d' : Disk) × Repeated temp i n left inode d d'
unfolding write_blocks
write_blocks-Repeated temp zero i left inode d op has fits = (
  d,
  record {
    run = λ s. refl;
    open_still = op;
    starts = λ j x lt small within. absurd (omega arith);
    others = λ c x away small. refl;
  },
)
write_blocks-Repeated temp (suc n) i left inode d op has fits =
    let b = direct_ptr inode i in
    let count = bytes_in_block 0 left in
    let block = overlay (bio_read d b).1 0 temp count in
    let d1 = (bio_write d b block).1 in
    let room : count ≤ length temp + 1 = ground arith in
    let op1 = (bio_read-bio_write d b block 0 op (omega arith)).1 in
    let (d', r) =
      write_blocks-Repeated temp n (i + 1) (left - count) inode d1 op1 (later_blocks inode i n has)
        (omega arith) in
    (
      d',
      record {
        run = λ s.
            write_round s temp n i 0 left inode d (omega (arith, has.in_range))
              (has.allocated i (omega arith) (omega arith)) room
            ∙ r.run s;
        open_still = r.open_still;
        starts =
            starts_all temp n i left inode d'
              (λ x small within.
                r.others b x (λ k lo hi. has.distinct i k (omega arith) (omega arith) (omega arith))
                  small
                ∙ (bio_read-bio_write d b block x op small).0
                ∙ overlay-inside (bio_read d b).1 temp count x (ground arith))
              r.starts;
        others = λ c x away small.
            r.others c x (λ k lo hi. away k (omega arith) (omega arith)) small
            ∙ bio_read-bio_write_other d b c block x op (away i (omega arith) (omega arith)) small;
      },
    )

-- A write of `size` bytes from the start of a block on, to a file whose blocks there are allocated,
-- each its own and none that of the inode, of a string at least as long: the call returns `size`,
-- and every one of the blocks starts with the bytes that the string starts with, as far as they are
-- within the `size` bytes. No block but these `ceil(size / 4096)` and that of the inode changes.
pub rufs_write-repeats :
    (s : Superblock) (now : ℕ) (path buffer : List ℕ) (size offset n : ℕ) (d : Disk)
    → d.diskfile ≡ opened
    → get_node_by_path s d path 1 ≡ (0, some (readi s d n))
    → load_half (readi s d n) 0 ≡ n
    → offset % 4096 ≡ 0
    → HasBlocks (readi s d n) (offset / 4096) (blocks_for size)
    → ((k : ℕ) → k < 16 → direct_ptr (readi s d n) k ≢ inode_block s n)
    → size ≤ length buffer
    → (d' : Disk) × (rufs_write s now path buffer size offset d ≡ ok (int_of size, d'))
      × ((j x : ℕ)
          → x < 4096
          → 4096 * j + x < size
          → (bio_read d' (direct_ptr (readi s d n) (offset / 4096 + j))).1 x ≡ byte_at buffer x)
      × ((c x : ℕ)
          → ((k : ℕ)
              → offset / 4096 ≤ k
              → k < offset / 4096 + blocks_for size
              → c ≢ direct_ptr (readi s d n) k)
          → c ≢ inode_block s n
          → x < 4096
          → (bio_read d' c).1 x ≡ (bio_read d c).1 x)
rufs_write-repeats s now path buffer size offset n d op found own aligned has apart fits =
    let inode = readi s d n in
    let (d1, r) =
      write_blocks-Repeated buffer (blocks_for size) (offset / 4096) size inode d op has fits in
    let rounds : rounds_for size offset ≡ blocks_for size = ground arith in
    (
      writei s d1 n (grown inode size now),
      write_steps s now path buffer size offset n d d1 found own (
          ap (λ m. write_blocks s buffer m (offset / 4096) (offset % 4096) size inode d) rounds
          ∙ ap (λ o. write_blocks s buffer (blocks_for size) (offset / 4096) o size inode d) aligned
          ∙ r.run s),
      λ j x small within.
          let c = direct_ptr inode (offset / 4096 + j) in
          bio_read-writei s d1 n (grown inode size now) c x r.open_still
            (apart (offset / 4096 + j) (omega (arith, has.in_range))) small
          ∙ r.starts j x (omega arith) small within,
      λ c x away far small.
          bio_read-writei s d1 n (grown inode size now) c x r.open_still far small
          ∙ r.others c x away small,
    )
