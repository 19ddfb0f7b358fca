-- ===== src/Rufs/Directory/Growing.antt =====
-- The pointers of a directory and the bitmap of the data blocks behind `dir_add`.
use cs.Prelude.{
  ℕ, ◌+◌, ◌-◌, ◌*◌, ◌/◌, ◌%◌, ◌<◌, ◌≡◌, refl, sym, ap, ◌∙◌, ◌≢◌, inl, inr, Bool, true, false, arith,
  ◌==◌, if◌then◌else◌, Bool-cases,
}
use mathlib.Core.Path.{subst}
use cs.Memory.{Mem}
use cs.Bitmap.Bits.{bit_of}
use cs.Rufs.Disk.{Disk}
use cs.Rufs.Alloc.{Superblock}
use cs.Rufs.Alloc.Takes.{disk_bit, Takes}
use cs.Rufs.Inodes.{readi, inode_block}
use cs.Rufs.Directory.{direct_ptr}
use cs.Rufs.Directory.Rewrites.{direct_ptr-ext, Rewritten}
use cs.Rufs.Directory.Keeping.{BlockUsed, BlocksUsed}

-- At most one pointer and one bit of the bitmap changed, and what is in use is marked.
pub record Grows (s : Superblock) (d d' : Disk) (ino : ℕ) : Type 0 where
  pub spot : ℕ
  pub taken : ℕ
  pub pointers :
      (k : ℕ) → k < 16 → k ≢ spot → direct_ptr (readi s d' ino) k ≡ direct_ptr (readi s d ino) k
  pub bits :
      (j : ℕ) → j < 16384 → j ≢ taken → disk_bit d' s.d_bitmap_blk j ≡ disk_bit d s.d_bitmap_blk j
  pub used : BlocksUsed s d ino → BlocksUsed s d' ino

module _ (s : Superblock) (d d1 d' : Disk) (ino : ℕ) (inode : Mem) (b : ℕ) (block : Mem)
    (w : Rewritten s d1 ino inode b block d') (off_block : s.d_bitmap_blk ≢ b)
    (off_inode : s.d_bitmap_blk ≢ inode_block s ino) where
  ptrs : (k : ℕ) → k < 16 → direct_ptr (readi s d' ino) k ≡ direct_ptr inode k
  ptrs k h = direct_ptr-ext (readi s d' ino) inode k h (λ x lo hi. w.inode_now x (omega arith))

  bit_same : (j : ℕ) → j < 16384 → disk_bit d' s.d_bitmap_blk j ≡ disk_bit d1 s.d_bitmap_blk j
  bit_same j lt =
      ap (λ a. bit_of a (j % 8)) (w.others s.d_bitmap_blk (j / 8) off_block off_inode (omega arith))

  still_used :
      (k : ℕ)
      → k < 16
      → BlockUsed s d1 (direct_ptr inode k)
      → BlockUsed s d' (direct_ptr (readi s d' ino) k)
  still_used k lt u =
      let q = ptrs k lt in
      record {
        in_data = subst (λ c. c < s.d_start_blk + 16384) (sym q) u.in_data;
        marked =
            ap (λ c. disk_bit d' s.d_bitmap_blk (c - s.d_start_blk)) q
            ∙ bit_same (direct_ptr inode k - s.d_start_blk)
                (inside (direct_ptr inode k) s.d_start_blk u.in_data)
            ∙ u.marked;
      }
    where
      inside : (c n : ℕ) → c < n + 16384 → c - n < 16384
      inside c n lt = omega arith

  pub Grows-free :
      d1 ≡ d
      → ((k : ℕ) → k < 16 → direct_ptr inode k ≡ direct_ptr (readi s d ino) k)
      → Grows s d d' ino
  Grows-free same old = record {
    spot = 16;
    taken = 16384;
    pointers = λ k lt ne. ptrs k lt ∙ old k lt;
    bits = λ j lt ne. bit_same j lt ∙ ap (λ a. disk_bit a s.d_bitmap_blk j) same;
    used = λ u k lt there.
        let q = ptrs k lt ∙ old k lt in
        still_used k lt (
          subst (λ a. BlockUsed s a (direct_ptr inode k)) (sym same)
            (subst (BlockUsed s d) (sym (old k lt)) (u k lt (λ z. there (q ∙ z)))));
  }

  pub Grows-new :
      (r p : ℕ)
      → Takes d s.d_bitmap_blk 2048 0 r d1
      → b ≡ r + s.d_start_blk
      → ((k : ℕ)
          → k < 16
          → direct_ptr inode k ≡ (if p == k then b else direct_ptr (readi s d ino) k))
      → Grows s d d' ino
  Grows-new r p takes is_b ptr = record {
    spot = p;
    taken = r;
    pointers = λ k lt ne. ptrs k lt ∙ ptr k lt ∙ otherwise p k b (direct_ptr (readi s d ino) k) ne;
    bits = λ j lt ne.
        bit_same j lt
        ∙ takes.bits j (omega arith)
        ∙ otherwise r j 1 (disk_bit d s.d_bitmap_blk j) ne;
    used = λ u k lt there. still_used k lt (elim (Bool-cases (p == k)) [
      | inl same ↦
          let q : direct_ptr inode k ≡ b =
            ptr k lt ∙ ap (λ t. if t then b else direct_ptr (readi s d ino) k) same in
          subst (BlockUsed s d1) (sym q) (record {
            in_data = first_in b r s.d_start_blk is_b (omega (arith, takes.in_bitmap));
            marked =
                ap (disk_bit d1 s.d_bitmap_blk) (back b r s.d_start_blk is_b)
                ∙ takes.bits r (omega (arith, takes.in_bitmap))
                ∙ itself r (disk_bit d s.d_bitmap_blk r);
          })
      | inr far ↦
          let c = direct_ptr (readi s d ino) k in
          let q : direct_ptr inode k ≡ c = ptr k lt ∙ ap (λ t. if t then b else c) far in
          let u' = u k lt (λ z. there (ptrs k lt ∙ q ∙ z)) in
          subst (BlockUsed s d1) (sym q) (record {
            in_data = u'.in_data;
            marked =
                takes.bits (c - s.d_start_blk) (inside c s.d_start_blk u'.in_data)
                ∙ either (r == c - s.d_start_blk) _ u'.marked;
          })
    ]);
  }
    where
      otherwise : (p k x y : ℕ) → k ≢ p → (if p == k then x else y) ≡ y
      otherwise p k x y ne = ground arith

      itself : (r x : ℕ) → (if r == r then 1 else x) ≡ 1
      itself r x = ground arith

      either : (t : Bool) (x : ℕ) → x ≡ 1 → (if t then 1 else x) ≡ 1
      either true x e = refl
      either false x e = e

      first_in : (b r n : ℕ) → b ≡ r + n → r < 16384 → b < n + 16384
      first_in b r n e lt = omega arith

      back : (b r n : ℕ) → b ≡ r + n → b - n ≡ r
      back b r n e = omega arith

      inside : (c n : ℕ) → c < n + 16384 → c - n < 8 * 2048
      inside c n lt = omega arith
