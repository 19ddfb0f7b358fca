-- ===== src/Rufs/Disk/Blocks.antt =====
-- What a write of a block does to the blocks of the disk.
use mathlib.Core.Path.{subst}
use cs.Prelude.{
  fun_ext, ℕ, ◌+◌, ◌-◌, ◌*◌, ◌≤◌, ◌<◌, ◌≡◌, refl, sym, ap, ◌∙◌, ◌≢◌, inl, inr, true, false, arith,
  ltb, if◌then◌else◌, Bool-cases,
}
use cs.Memory.{Mem}
use cs.Rufs.Disk.{Disk, opened, stored, bio_read, bio_write}

pub bio_read-in :
    (d : Disk) (b i : ℕ)
    → d.diskfile ≡ opened
    → b < d.blocks
    → i < 4096
    → (bio_read d b).1 i ≡ d.bytes (4096 * b + i)
unfolding bio_read
bio_read-in d b i op lt small =
    let e : ltb b d.blocks ≡ true = ground arith in
    let inside : ltb i 4096 ≡ true = ground arith in rw op (rw e (rw inside refl))

pub bio_read-out :
    (d : Disk) (b i : ℕ) → d.diskfile ≡ opened → d.blocks ≤ b → (bio_read d b).1 i ≡ 0
unfolding bio_read
bio_read-out d b i op le = let e : ltb b d.blocks ≡ false = ground arith in rw op (rw e refl)

stored-inside :
    (d : Disk) (b : ℕ) (buf : Mem) (i : ℕ) → i < 4096 → stored d b buf (4096 * b + i) ≡ buf i
stored-inside d b buf i lt = let e : 4096 * b + i - 4096 * b ≡ i = omega arith in ground arith

stored-outside :
    (d : Disk) (b b' : ℕ) (buf : Mem) (i : ℕ)
    → i < 4096
    → b' ≢ b
    → b' < d.blocks
    → stored d b buf (4096 * b' + i) ≡ d.bytes (4096 * b' + i)
stored-outside d b b' buf i lt ne held = ground arith

stored-gap :
    (d : Disk) (b b' : ℕ) (buf : Mem) (i : ℕ)
    → i < 4096
    → b' ≢ b
    → d.blocks ≤ b'
    → stored d b buf (4096 * b' + i) ≡ 0
stored-gap d b b' buf i lt ne past = ground arith

-- The disk after a write of a block.
abbrev written : Disk → ℕ → Mem → Disk
written d b buf = record {
  bytes = stored d b buf;
  blocks = if ltb b d.blocks then d.blocks else b + 1;
  diskfile = opened;
}

written_lem :
    (d : Disk) (b : ℕ) (buf : Mem) → d.diskfile ≡ opened → (bio_write d b buf).1 ≡ written d b buf
unfolding bio_write
written_lem d b buf op = rw op refl

written_holds :
    (d : Disk) (b : ℕ) (buf : Mem)
    → (b < (written d b buf).blocks) × (d.blocks ≤ (written d b buf).blocks)
written_holds d b buf = (ground arith, ground arith)

-- On an open disk a write of a block is read back, byte for byte, the disk stays open, and it
-- holds the block and all that it held.
pub bio_read-bio_write :
    (d : Disk) (b : ℕ) (buf : Mem) (i : ℕ)
    → d.diskfile ≡ opened
    → i < 4096
    → ((bio_read (bio_write d b buf).1 b).1 i ≡ buf i)
      × ((bio_write d b buf).1.diskfile ≡ opened)
      × (b < (bio_write d b buf).1.blocks)
      × (d.blocks ≤ (bio_write d b buf).1.blocks)
bio_read-bio_write d b buf i op lt =
    subst
      (λ e.
        ((bio_read e b).1 i ≡ buf i)
        × (e.diskfile ≡ opened)
        × (b < e.blocks)
        × (d.blocks ≤ e.blocks))
      (sym (written_lem d b buf op))
      (
        bio_read-in (written d b buf) b i refl (written_holds d b buf).0 lt
            ∙ stored-inside d b buf i lt,
        refl,
        (written_holds d b buf).0,
        (written_holds d b buf).1,
      )

-- The other blocks of the disk read as before.
pub bio_read-bio_write_other :
    (d : Disk) (b b' : ℕ) (buf : Mem) (i : ℕ)
    → d.diskfile ≡ opened
    → b' ≢ b
    → i < 4096
    → (bio_read (bio_write d b buf).1 b').1 i ≡ (bio_read d b').1 i
bio_read-bio_write_other d b b' buf i op ne lt =
    ap (λ e. (bio_read e b').1 i) (written_lem d b buf op) ∙ elim (Bool-cases (ltb b' d.blocks)) [
      | inl held ↦
          bio_read-in (written d b buf) b' i refl (ground arith) lt
          ∙ stored-outside d b b' buf i lt ne (ground arith)
          ∙ sym (bio_read-in d b' i op (ground arith) lt)
      | inr past ↦
          elim (Bool-cases (ltb b' (written d b buf).blocks)) [
            | inl grown ↦
                bio_read-in (written d b buf) b' i refl (ltb_lt b' (written d b buf).blocks grown)
                  lt
                ∙ stored-gap d b b' buf i lt ne (ltb_le b' d.blocks past)
            | inr out ↦
                bio_read-out (written d b buf) b' i refl (ltb_le b' (written d b buf).blocks out)
          ]
          ∙ sym (bio_read-out d b' i op (ltb_le b' d.blocks past))
    ]
  where
    ltb_lt : (x y : ℕ) → ltb x y ≡ true → x < y
    ltb_lt x y e = ground arith

    ltb_le : (x y : ℕ) → ltb x y ≡ false → y ≤ x
    ltb_le x y e = ground arith

-- Nothing is read behind the buffer.
pub bio_read-behind : (d : Disk) (b i : ℕ) → 4096 ≤ i → (bio_read d b).1 i ≡ 0
unfolding bio_read
bio_read-behind d b i le = let e : ltb i 4096 ≡ false = ground arith in ground (arith, e)

-- Blocks that agree on the bytes of a buffer are read alike.
pub bio_read-ext :
    (d d' : Disk) (b b' : ℕ)
    → ((i : ℕ) → i < 4096 → (bio_read d b).1 i ≡ (bio_read d' b').1 i)
    → (bio_read d b).1 ≡ (bio_read d' b').1
bio_read-ext d d' b b' h = fun_ext (λ i. elim (Bool-cases (ltb i 4096)) [
  | inl lt ↦ h i (ground arith)
  | inr ge ↦ bio_read-behind d b i (ground arith) ∙ sym (bio_read-behind d' b' i (ground arith))
])
