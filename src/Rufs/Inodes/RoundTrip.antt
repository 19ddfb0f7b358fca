-- ===== src/Rufs/Inodes/RoundTrip.antt =====
-- What `writei` does to the inodes that `readi` reads.
use cs.Prelude.{
  fun_ext, ltb, true, refl, ℕ, ◌+◌, ◌-◌, ◌*◌, ◌<◌, ◌≡◌, sym, ap, ◌∙◌, ◌≢◌, inl, inr, false, arith,
  ◌==◌, ==_iff, Bool-cases,
}
use cs.Memory.{Mem}
use cs.Rufs.Disk.{Disk, opened, bio_read}
use cs.Rufs.Disk.Blocks.{bio_read-bio_write, bio_read-bio_write_other}
use cs.Rufs.Alloc.{Superblock}
use cs.Rufs.Inodes.{inode_block, inode_offset, readi, with_inode, writei}

with_inode-inside :
    (block : Mem) (offset : ℕ) (inode : Mem) (k : ℕ)
    → k < 256
    → with_inode block offset inode (256 * offset + k) ≡ inode k
unfolding with_inode
with_inode-inside block offset inode k lt =
    let e : 256 * offset + k - 256 * offset ≡ k = omega arith in ground arith

with_inode-outside :
    (block : Mem) (offset other : ℕ) (inode : Mem) (k : ℕ)
    → k < 256
    → other ≢ offset
    → with_inode block offset inode (256 * other + k) ≡ block (256 * other + k)
unfolding with_inode
with_inode-outside block offset other inode k lt ne = ground arith

offset_fits : (ino k : ℕ) → k < 256 → 256 * inode_offset ino + k < 4096
unfolding inode_offset
offset_fits ino k lt = omega arith

pub readi-in :
    (s : Superblock) (d : Disk) (ino k : ℕ)
    → k < 256
    → readi s d ino k ≡ (bio_read d (inode_block s ino)).1 (256 * inode_offset ino + k)
unfolding readi
readi-in s d ino k lt = let e : ltb k 256 ≡ true = ground arith in rw e refl

-- Inodes that agree on their bytes are read alike.
pub readi-ext :
    (s : Superblock) (d d' : Disk) (ino ino' : ℕ)
    → ((k : ℕ) → k < 256 → readi s d ino k ≡ readi s d' ino' k)
    → readi s d ino ≡ readi s d' ino'
unfolding readi
readi-ext s d d' ino ino' h =
    fun_ext
      (λ k. elim (Bool-cases (ltb k 256)) [ inl lt ↦ h k (ground arith) | inr ge ↦ rw ge refl ])

-- Two inodes of one block have different places in it.
offset_ne :
    (s : Superblock) (ino other : ℕ)
    → other ≢ ino
    → inode_block s other ≡ inode_block s ino
    → inode_offset other ≢ inode_offset ino
unfolding inode_block inode_offset
offset_ne s ino other ne same e = omega arith

-- On an open disk an inode that was written is read back, all 256 bytes of it.
pub readi-writei :
    (s : Superblock) (d : Disk) (ino : ℕ) (inode : Mem) (k : ℕ)
    → d.diskfile ≡ opened
    → k < 256
    → readi s (writei s d ino inode) ino k ≡ inode k
unfolding writei
readi-writei s d ino inode k op lt =
    readi-in s (writei s d ino inode) ino k lt
    ∙ (bio_read-bio_write d (inode_block s ino)
        (with_inode (bio_read d (inode_block s ino)).1 (inode_offset ino) inode)
        (256 * (inode_offset ino) + k) op (offset_fits ino k lt)).0
    ∙ with_inode-inside (bio_read d (inode_block s ino)).1 (inode_offset ino) inode k lt

-- On an open disk writing an inode leaves every other inode as it was.
pub readi-writei_other :
    (s : Superblock) (d : Disk) (ino other : ℕ) (inode : Mem) (k : ℕ)
    → d.diskfile ≡ opened
    → k < 256
    → other ≢ ino
    → readi s (writei s d ino inode) other k ≡ readi s d other k
unfolding writei
readi-writei_other s d ino other inode k op lt ne =
    let block = (bio_read d (inode_block s ino)).1 in
    let at_k = 256 * inode_offset other + k in
    readi-in s (writei s d ino inode) other k lt
    ∙ elim (Bool-cases (inode_block s other == inode_block s ino)) [
      | inl same ↦
          let e = (==_iff (inode_block s other) (inode_block s ino)).0 same in
          ap (λ b. (bio_read (writei s d ino inode) b).1 at_k) e
          ∙ (bio_read-bio_write d (inode_block s ino) (with_inode block (inode_offset ino) inode)
              at_k op (offset_fits other k lt)).0
          ∙ with_inode-outside block (inode_offset ino) (inode_offset other) inode k lt
              (offset_ne s ino other ne e)
          ∙ ap (λ b. (bio_read d b).1 at_k) (sym e)
      | inr apart ↦
          bio_read-bio_write_other d (inode_block s ino) (inode_block s other)
            (with_inode block (inode_offset ino) inode) at_k op
            (λ e. unequal (inode_block s other) (inode_block s ino) apart e)
            (offset_fits other k lt)
    ]
    ∙ sym (readi-in s d other k lt)
  where
    unequal : (x y : ℕ) → (x == y) ≡ false → x ≢ y
    unequal x y e z = ground arith
