-- ===== src/Rufs/Directory/Adding.antt =====
-- The two branches of `dir_add` that add an entry, and the pointers of the inode that it writes.
use mathlib.Core.Path.{subst}
use cs.Prelude.{
  ℕ, zero, suc, ◌+◌, ◌*◌, ◌^◌, ◌≤◌, ◌<◌, ◌≡◌, refl, sym, ap, ◌∙◌, ◌≢◌, inl, inr, Bool, false, none,
  some, List, arith, ◌==◌, if◌then◌else◌, ==_iff, Bool-cases, ok,
}
use cs.Memory.{Mem, load_word, store_word}
use cs.Memory.Words.{load-store, load-store_apart}
use cs.Rufs.Disk.{Disk, bio_read, bio_write}
use cs.Rufs.Alloc.{Superblock, get_avail_blkno}
use cs.Rufs.Inodes.{readi, writei}
use cs.Rufs.Directory.{
  direct_ptr, no_block, grow_inode, load_half, entry_matches, first_in_blocks, first_unused,
  fill_entry, clear_entries, add_in_new_block, dir_find, dir_add, dirent_size, store_long,
}
use cs.Rufs.Directory.Search.{absent, present, first_in_blocks-FirstInBlocks}
use cs.Rufs.Directory.Rewrites.{direct_ptr-grow_inode}
use cs.Rufs.Directory.Added.{NoEntry}

abbrev pub named : List ℕ → ℕ → Mem → ℕ → Bool
named fname len block j = entry_matches block j fname len

abbrev pub is_free : Mem → ℕ → Bool
is_free block j = load_half block (dirent_size * j + 2) == 0

abbrev pub with_entry : Superblock → Disk → Mem → ℕ → Mem → Disk
with_entry s d inode b block = (bio_write (writei s d (load_half inode 0) inode) b block).1

pub dir_add_free :
    (s : Superblock) (d : Disk) (fresh inode : Mem) (f_ino : ℕ) (fname : List ℕ) (len b j : ℕ)
    (block : Mem)
    → first_in_blocks d inode (named fname len) 0 16 ≡ none
    → first_in_blocks d inode is_free 0 16 ≡ some (b, j)
    → fill_entry (bio_read d b).1 j f_ino fname len ≡ ok block
    → dir_add s d fresh inode f_ino fname len
      ≡ ok (0, (bio_write (writei s d (load_half inode 0) (grow_inode inode)) b block).1)
unfolding dir_add
dir_add_free s d fresh inode f_ino fname len b j block p q r = rw (dir_add, p) (rw q (rw r refl))

pub dir_add_new :
    (s : Superblock) (d d1 : Disk) (fresh inode : Mem) (f_ino : ℕ) (fname : List ℕ) (len b i : ℕ)
    (block : Mem)
    → first_in_blocks d inode (named fname len) 0 16 ≡ none
    → first_in_blocks d inode is_free 0 16 ≡ none
    → get_avail_blkno s d ≡ ok (b, d1)
    → first_unused inode 0 16 ≡ some i
    → fill_entry (clear_entries fresh 0 16) 0 f_ino fname len ≡ ok block
    → dir_add s d fresh inode f_ino fname len
      ≡ ok (0, with_entry s d1 (grow_inode (store_word inode (16 + 4 * i) b)) b block)
unfolding dir_add add_in_new_block
dir_add_new s d d1 fresh inode f_ino fname len b i block p q r u f =
    rw (dir_add, p) (rw q (rw (r, u) (rw f refl)))

pub not_found :
    (s : Superblock) (d : Disk) (ino : ℕ) (fname : List ℕ) (len : ℕ)
    → (dir_find s d ino fname len).0 ≢ 0
    → (first_in_blocks d (readi s d ino) (named fname len) 0 16 ≡ none) × NoEntry s d ino fname len
unfolding dir_find
not_found s d ino fname len missing =
    elim (first_in_blocks-FirstInBlocks d (readi s d ino) (named fname len) 0 16) [
      | absent all e ↦ (e, λ k j lt there lt'. all k j (omega arith) (omega arith) there lt')
      | present k j lo hi there lt pass e ↦ absurd (missing (rw (dir_find, e) refl))
    ]

-- An unused pointer is found where there is one.
pub first_unused-some :
    (inode : Mem) (i n k : ℕ)
    → i ≤ k
    → k < i + n
    → direct_ptr inode k ≡ no_block
    → (r : ℕ) × (first_unused inode i n ≡ some r) × (r < i + n) × (direct_ptr inode r ≡ no_block)
unfolding first_unused
first_unused-some inode i zero k lo hi e = absurd (omega arith)
first_unused-some inode i (suc n) k lo hi e = elim (Bool-cases (direct_ptr inode i == no_block)) [
  | inl here ↦ (i, rw here refl, omega arith, (==_iff (direct_ptr inode i) no_block).0 here)
  | inr there ↦
      let (r, run, lt, unused) =
        first_unused-some inode (i + 1) n k (later inode i k there lo e) (omega arith) e in
      (r, rw there run, omega arith, unused)
]
  where
    clash : (x : ℕ) → (x == no_block) ≡ false → x ≢ no_block
    clash x e z = ground arith

    later :
        (inode : Mem) (i k : ℕ)
        → (direct_ptr inode i == no_block) ≡ false
        → i ≤ k
        → direct_ptr inode k ≡ no_block
        → i + 1 ≤ k
    later inode i k there lo e = elim (Bool-cases (i == k)) [
      | inl same ↦
          absurd
            (clash (direct_ptr inode i) there (ap (direct_ptr inode) ((==_iff i k).0 same) ∙ e))
      | inr other ↦ ground arith
    ]

pub grown_number :
    (m : Mem) (a v : ℕ) → 2 ≤ a → load_half (grow_inode (store_word m a v)) 0 ≡ load_half m 0
unfolding load_half grow_inode store_long store_word
grown_number m a v lo = ground arith

pub grown_number_same : (m : Mem) → load_half (grow_inode m) 0 ≡ load_half m 0
unfolding load_half grow_inode store_long store_word
grown_number_same m = ground arith

-- A pointer is put in the inode.
pub grown_pointer :
    (m : Mem) (i v k : ℕ)
    → v < 2 ^ 32
    → k < 16
    → direct_ptr (grow_inode (store_word m (16 + 4 * i) v)) k
      ≡ (if i == k then v else direct_ptr m k)
unfolding direct_ptr
grown_pointer m i v k lt hi =
    direct_ptr-grow_inode (store_word m (16 + 4 * i) v) k hi ∙ elim (Bool-cases (i == k)) [
      | inl same ↦ rw same (
          ap (λ a. load_word (store_word m (16 + 4 * i) v) (16 + 4 * a)) (sym ((==_iff i k).0 same))
          ∙ load-store m (16 + 4 * i) v lt)
      | inr other ↦ rw other (load-store_apart m (16 + 4 * i) v (16 + 4 * k) (ground arith))
    ]

pub invalid_differs :
    (m : Mem) (j : ℕ) (fname : List ℕ) (len : ℕ)
    → load_half m (256 * j + 2) ≡ 0
    → entry_matches m j fname len ≡ false
unfolding entry_matches
invalid_differs m j fname len e = rw e refl

-- Blocks on the two sides of a bound, and a pointer that was put or not.
pub clash : (x y n : ℕ) → x ≡ y → n ≤ x → y < n → ⊥
clash x y n e le lt = omega arith

pub below : (x n r : ℕ) → x < n → x ≢ r + n
below x n r lt z = omega arith

pub at_same : (i b x : ℕ) → (if i == i then b else x) ≡ b
at_same i b x = ground arith

pub at_other : (i k b x : ℕ) → (if i == k then b else x) ≢ b → (if i == k then b else x) ≡ x
at_other i k b x ne = ground arith

unequal : (x y : ℕ) → (x == y) ≡ false → x ≢ y
unequal x y e z = ground arith

pub at_least :
    (i k b x n : ℕ)
    → n ≤ b
    → ((if i == k then b else x) ≢ b → n ≤ x)
    → n ≤ (if i == k then b else x)
at_least i k b x n le h = elim (Bool-cases ((if i == k then b else x) == b)) [
  | inl same ↦ ground (arith, same)
  | inr other ↦
      let ne : (if i == k then b else x) ≢ b = λ z. unequal (if i == k then b else x) b other z in
      subst (λ c. n ≤ c) (sym (at_other i k b x ne)) (h ne)
]
