-- ===== src/Rufs/Directory/Others.antt =====
-- What `dir_find` gives for a name whose entries were kept, and names that differ.
use cs.Prelude.{
  ℕ, zero, suc, ◌+◌, ◌*◌, ◌≤◌, ◌<◌, ◌≡◌, refl, sym, ap, ◌∙◌, ◌≢◌, inl, inr, Bool, true, false, ◌&&◌,
  Option, none, some, List, [], ◌∷◌, arith, ◌==◌, ==_iff, ==_of_ne, Bool-cases,
}
use cs.Memory.{Mem}
use cs.Rufs.Disk.{Disk, bio_read}
use cs.Rufs.Alloc.{Superblock}
use cs.Rufs.Inodes.{readi}
use cs.Rufs.Directory.{
  direct_ptr, no_block, load_half, same_string, entry_matches, first_entry, first_in_blocks, enoent,
  dir_find, entry_of_block,
}
use cs.Rufs.Directory.Search.{
  no_entry, entry, first_entry-FirstEntry, absent, present, first_in_blocks-FirstInBlocks,
}
use cs.Rufs.Directory.Adding.{named}
use cs.Rufs.Directory.Paths.{in_block, first_in_blocks-suc}

-- A string of C: no byte is zero.
pub data NoZero : List ℕ → Type 0 where
  nothing : NoZero []
  more : {c : ℕ} {cs : List ℕ} → c ≢ 0 → NoZero cs → NoZero (c ∷ cs)

first_byte : (u v : ℕ) (b : Bool) → (u == v && b) ≡ true → u ≡ v
first_byte u v b e = ground arith

other_bytes : (a b : Bool) → (a && b) ≡ true → b ≡ true
other_bytes true b e = e
other_bytes false b e = absurd (differ e)
  where
    differ : false ≢ true
    differ z = cc

-- One string stands at an address.
pub same_string_unique :
    (m : Mem) (a : ℕ) (xs ys : List ℕ)
    → NoZero xs
    → NoZero ys
    → same_string m a xs ≡ true
    → same_string m a ys ≡ true
    → xs ≡ ys
unfolding same_string
same_string_unique m a [] [] no_x no_y p q = refl
same_string_unique m a [] (y ∷ ys) no_x (more ne rest) p q =
    absurd (ne (sym (first_byte (m a) y (same_string m (a + 1) ys) q) ∙ (==_iff (m a) 0).0 p))
same_string_unique m a (x ∷ xs) [] (more ne rest) no_y p q =
    absurd (ne (sym (first_byte (m a) x (same_string m (a + 1) xs) p) ∙ (==_iff (m a) 0).0 q))
same_string_unique m a (x ∷ xs) (y ∷ ys) (more ne rest) (more ne' rest') p q =
    let first =
      sym (first_byte (m a) x (same_string m (a + 1) xs) p)
      ∙ first_byte (m a) y (same_string m (a + 1) ys) q in
    let later =
      same_string_unique m (a + 1) xs ys rest rest'
        (other_bytes (m a == x) (same_string m (a + 1) xs) p)
        (other_bytes (m a == y) (same_string m (a + 1) ys) q) in
    rw (first, later) refl

-- An entry matches one name.
pub entry_matches_other :
    (m : Mem) (j : ℕ) (fname other : List ℕ) (len len' : ℕ)
    → NoZero fname
    → NoZero other
    → other ≢ fname
    → entry_matches m j fname len ≡ true
    → entry_matches m j other len' ≡ false
unfolding entry_matches
entry_matches_other m j fname other len len' no_f no_o ne match =
    let valid = load_half m (256 * j + 2) == 1 in
    let size = λ (n : ℕ). load_half m (256 * j + 254) == n in
    let named = λ (name : List ℕ). same_string m (256 * j + 4) name in
    elim (Bool-cases (same_string m (256 * j + 4) other)) [
      | inl same ↦ absurd (
          ne (
            same_string_unique m (256 * j + 4) other fname no_o no_f same
              (other_bytes (valid && size len) (named fname) match)))
      | inr differs ↦ no_second (valid && size len') (named other) differs
    ]
  where
    no_second : (a b : Bool) → b ≡ false → (a && b) ≡ false
    no_second true b e = e
    no_second false b e = refl

-- The entry `j` of two blocks is the same for a name.
pub record Alike (m m' : Mem) (j : ℕ) (fname : List ℕ) (len : ℕ) : Type 0 where
  pub matching : entry_matches m' j fname len ≡ entry_matches m j fname len
  pub bytes :
      entry_matches m j fname len ≡ true → (x : ℕ) → 256 * j ≤ x → x < 256 * j + 256 → m' x ≡ m x

-- The block `k` of a directory is kept for a name, or is new and does not have it.
pub data KeptAt (s : Superblock) (d d' : Disk) (ino : ℕ) (fname : List ℕ) (len k : ℕ) : Type 0 where
  same_block :
      direct_ptr (readi s d' ino) k ≡ direct_ptr (readi s d ino) k
      → (direct_ptr (readi s d ino) k ≢ no_block
          → (j : ℕ) → j < 16
          → Alike
              (bio_read d (direct_ptr (readi s d ino) k)).1
              (bio_read d' (direct_ptr (readi s d ino) k)).1
              j
              fname
              len)
      → KeptAt s d d' ino fname len k
  new_block :
      direct_ptr (readi s d ino) k ≡ no_block
      → direct_ptr (readi s d' ino) k ≢ no_block
      → ((j : ℕ)
          → j < 16
          → entry_matches (bio_read d' (direct_ptr (readi s d' ino) k)).1 j fname len ≡ false)
      → KeptAt s d d' ino fname len k

first_entry-ext :
    (p p' : ℕ → Bool) (j n : ℕ)
    → ((k : ℕ) → j ≤ k → k < j + n → p' k ≡ p k)
    → first_entry p' j n ≡ first_entry p j n
unfolding first_entry
first_entry-ext p p' j zero h = refl
first_entry-ext p p' j (suc n) h =
    rw
      (
        h j (omega arith) (omega arith),
        first_entry-ext p p' (j + 1) n (λ k lo hi. h k (omega arith) (omega arith)),
      )
      refl

module _ (passes : Mem → ℕ → Bool) where
  in_block_none :
      (b : ℕ) (m : Mem) (rest : Option (ℕ × ℕ)) → b ≡ no_block → in_block passes b m rest ≡ rest
  unfolding in_block
  in_block_none b m rest e = rw ((==_iff b no_block).1 e) refl

  in_block_misses :
      (b : ℕ) (m : Mem) (rest : Option (ℕ × ℕ))
      → b ≢ no_block
      → ((j : ℕ) → j < 16 → passes m j ≡ false)
      → in_block passes b m rest ≡ rest
  unfolding in_block
  in_block_misses b m rest ne miss = elim (first_entry-FirstEntry (passes m) 0 16) [
    | no_entry all e ↦ rw (==_of_ne b no_block ne, e) refl
    | entry k lo hi pass e ↦ absurd (differ (sym pass ∙ miss k (omega arith)))
  ]
    where
      differ : true ≢ false
      differ z = cc

  in_block_alike :
      (b : ℕ) (m m' : Mem) (rest : Option (ℕ × ℕ))
      → (b ≢ no_block → (j : ℕ) → j < 16 → passes m' j ≡ passes m j)
      → in_block passes b m' rest ≡ in_block passes b m rest
  unfolding in_block
  in_block_alike b m m' rest h = elim (Bool-cases (b == no_block)) [
    | inl none_here ↦ rw none_here refl
    | inr there ↦
        rw
          (first_entry-ext (passes m) (passes m') 0 16
            (λ k lo hi. h (λ z. unequal b no_block there z) k (omega arith)))
          refl
  ]
    where
      unequal : (x y : ℕ) → (x == y) ≡ false → x ≢ y
      unequal x y e z = ground arith

-- The search comes to the same entry.
first_in_blocks-KeptAt :
    (s : Superblock) (d d' : Disk) (ino : ℕ) (fname : List ℕ) (len i n : ℕ)
    → ((k : ℕ) → i ≤ k → k < i + n → KeptAt s d d' ino fname len k)
    → first_in_blocks d' (readi s d' ino) (named fname len) i n
      ≡ first_in_blocks d (readi s d ino) (named fname len) i n
unfolding first_in_blocks
first_in_blocks-KeptAt s d d' ino fname len i zero kept = refl
first_in_blocks-KeptAt s d d' ino fname len i (suc n) kept =
    let p = named fname len in
    let old = direct_ptr (readi s d ino) i in
    let new = direct_ptr (readi s d' ino) i in
    let rest = first_in_blocks d (readi s d ino) p (i + 1) n in
    let later =
      first_in_blocks-KeptAt s d d' ino fname len (i + 1) n
        (λ k lo hi. kept k (omega arith) (omega arith)) in
    first_in_blocks-suc d' (readi s d' ino) p i n
    ∙ ap (in_block p new (bio_read d' new).1) later
    ∙ elim (kept i (omega arith) (omega arith)) [
      | same_block e alike ↦
          ap (λ b. in_block p b (bio_read d' b).1 rest) e
          ∙ in_block_alike p old (bio_read d old).1 (bio_read d' old).1 rest
              (λ there j lt. (alike there j lt).matching)
      | new_block e there miss ↦
          in_block_misses p new (bio_read d' new).1 rest there miss
          ∙ sym (in_block_none p old (bio_read d old).1 rest e)
    ]
    ∙ sym (first_in_blocks-suc d (readi s d ino) p i n)

-- Two results of `dir_find` that agree: nothing, or entries of the same 256 bytes.
pub data SameFound (r r' : ℕ × Option Mem) : Type 0 where
  neither : r ≡ (enoent, none) → r' ≡ (enoent, none) → SameFound r r'
  both :
      (e e' : Mem)
      → r ≡ (0, some e)
      → r' ≡ (0, some e')
      → ((x : ℕ) → x < 256 → e' x ≡ e x)
      → SameFound r r'

pub dir_find-KeptAt :
    (s : Superblock) (d d' : Disk) (ino : ℕ) (fname : List ℕ) (len : ℕ)
    → ((k : ℕ) → k < 16 → KeptAt s d d' ino fname len k)
    → SameFound (dir_find s d ino fname len) (dir_find s d' ino fname len)
unfolding dir_find
dir_find-KeptAt s d d' ino fname len kept =
    let q = first_in_blocks-KeptAt s d d' ino fname len 0 16 (λ k lo hi. kept k (omega arith)) in
    elim (first_in_blocks-FirstInBlocks d (readi s d ino) (named fname len) 0 16) [
      | absent all e ↦ neither (rw (dir_find, e) refl) (rw (dir_find, q) (rw e refl))
      | present k j lo hi there lt pass e ↦
          let b = direct_ptr (readi s d ino) k in
          both (entry_of_block (bio_read d b).1 j) (entry_of_block (bio_read d' b).1 j)
            (rw (dir_find, e) refl) (rw (dir_find, q) (rw e refl))
            (elim (kept k (omega arith)) [
              | same_block e' alike ↦
                  λ x h. (alike there j lt).bytes pass (256 * j + x) (omega arith) (omega arith)
              | new_block e' there' miss ↦ absurd (there e')
            ])
    ]
