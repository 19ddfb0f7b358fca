-- ===== src/Rufs/Directory/Paths.antt =====
-- The walk of a path as a relation, and what a change of the disk leaves of it.
use cs.Prelude.{
  ℕ, zero, suc, ◌+◌, ◌≤◌, ◌<◌, ◌≡◌, refl, sym, ap, ◌∙◌, ◌≢◌, inl, inr, Bool, true, false, Option,
  none, some, List, [], ◌∷◌, arith, ◌==◌, if◌then◌else◌, Bool-cases, length,
}
use cs.Memory.{Mem}
use cs.Rufs.Disk.{Disk, bio_read}
use cs.Rufs.Alloc.{Superblock}
use cs.Rufs.Inodes.{readi}
use cs.Rufs.Directory.{
  direct_ptr, no_block, load_half, entry_matches, first_entry, first_in_blocks, dir_find, walk_path,
  tokens, is_root, get_node_by_path, entry_of_block,
}
use cs.Rufs.Directory.Search.{absent, present, first_in_blocks-FirstInBlocks}

-- The walk from a directory along the tokens to the inode `n`; each directory on it has `P`.
pub data Walks (s : Superblock) (d : Disk) (P : ℕ → Type 0) (n : ℕ)
    : ℕ → List (List ℕ) → Type 0 where
  arrived : {ino : ℕ} → ino ≡ n → Walks s d P n ino []
  down :
      {ino : ℕ} {token : List ℕ} {rest : List (List ℕ)} (e : Mem)
      → P ino
      → dir_find s d ino token (length token) ≡ (0, some e)
      → Walks s d P n (load_half e 0) rest
      → Walks s d P n ino (token ∷ rest)

pub walk_path-Walks :
    (s : Superblock) (d : Disk) (P : ℕ → Type 0) (n ino : ℕ) (path : List (List ℕ))
    → Walks s d P n ino path
    → walk_path s d ino path ≡ (0, some (readi s d n))
unfolding walk_path
walk_path-Walks s d P n ino [] (arrived e) = ap (λ i. (0, some (readi s d i))) e
walk_path-Walks s d P n ino (token ∷ rest) (down e p found more) =
    rw (walk_path, found) (walk_path-Walks s d P n (load_half e 0) rest more)

-- The path leads to the inode `n`.
pub data Resolves (s : Superblock) (d : Disk) (P : ℕ → Type 0) (path : List ℕ) (n : ℕ)
    : Type 0 where
  root : is_root path ≡ true → n ≡ 1 → Resolves s d P path n
  walk : is_root path ≡ false → Walks s d P n 1 (tokens [] path) → Resolves s d P path n

pub get_node_by_path-Resolves :
    (s : Superblock) (d : Disk) (P : ℕ → Type 0) (path : List ℕ) (n : ℕ)
    → Resolves s d P path n
    → get_node_by_path s d path 1 ≡ (0, some (readi s d n))
unfolding get_node_by_path
get_node_by_path-Resolves s d P path n (root e same) =
    rw e (ap (λ i. (0, some (readi s d i))) (sym same))
get_node_by_path-Resolves s d P path n (walk e w) =
    rw e (walk_path-Walks s d P n 1 (tokens [] path) w)

-- The directory has the same blocks on both disks, with the same bytes.
pub record SameDirectory (s : Superblock) (d d' : Disk) (ino : ℕ) : Type 0 where
  pub pointers : (k : ℕ) → k < 16 → direct_ptr (readi s d' ino) k ≡ direct_ptr (readi s d ino) k
  pub blocks :
      (k : ℕ)
      → k < 16
      → direct_ptr (readi s d ino) k ≢ no_block
      → (bio_read d' (direct_ptr (readi s d ino) k)).1
        ≡ (bio_read d (direct_ptr (readi s d ino) k)).1

-- A round of the search, and the same round with the block read from elsewhere.
unfoldable pub in_block : (Mem → ℕ → Bool) → ℕ → Mem → Option (ℕ × ℕ) → Option (ℕ × ℕ)
in_block passes b block rest =
    if b == no_block
    then rest
    else elim (first_entry (passes block) 0 16) [ none ↦ rest | some j ↦ some (b, j) ]

pub first_in_blocks-suc :
    (d : Disk) (inode : Mem) (passes : Mem → ℕ → Bool) (i n : ℕ)
    → first_in_blocks d inode passes i (suc n)
      ≡ in_block passes
          (direct_ptr inode i)
          (bio_read d (direct_ptr inode i)).1
          (first_in_blocks d inode passes (i + 1) n)
unfolding first_in_blocks in_block
first_in_blocks-suc d inode passes i n = refl

in_block-ext :
    (passes : Mem → ℕ → Bool) (b : ℕ) (block block' : Mem) (rest : Option (ℕ × ℕ))
    → (b ≢ no_block → block' ≡ block)
    → in_block passes b block' rest ≡ in_block passes b block rest
unfolding in_block
in_block-ext passes b block block' rest h = elim (Bool-cases (b == no_block)) [
  | inl none_here ↦ rw none_here refl
  | inr there ↦ ap (λ m. in_block passes b m rest) (h (λ z. differs there z))
]
  where
    differs : (b == no_block) ≡ false → b ≢ no_block
    differs e z = ground arith

first_in_blocks-ext :
    (d d' : Disk) (inode inode' : Mem) (passes : Mem → ℕ → Bool) (i n : ℕ)
    → ((k : ℕ) → i ≤ k → k < i + n → direct_ptr inode' k ≡ direct_ptr inode k)
    → ((k : ℕ)
        → i ≤ k
        → k < i + n
        → direct_ptr inode k ≢ no_block
        → (bio_read d' (direct_ptr inode k)).1 ≡ (bio_read d (direct_ptr inode k)).1)
    → first_in_blocks d' inode' passes i n ≡ first_in_blocks d inode passes i n
unfolding first_in_blocks
first_in_blocks-ext d d' inode inode' passes i zero ptrs same = refl
first_in_blocks-ext d d' inode inode' passes i (suc n) ptrs same =
    let later =
      first_in_blocks-ext d d' inode inode' passes (i + 1) n
        (λ k lo hi. ptrs k (omega arith) (omega arith))
        (λ k lo hi. same k (omega arith) (omega arith)) in
    first_in_blocks-suc d' inode' passes i n
    ∙ ap (λ b. in_block passes b (bio_read d' b).1 (first_in_blocks d' inode' passes (i + 1) n))
        (ptrs i (omega arith) (omega arith))
    ∙ ap (in_block passes (direct_ptr inode i) (bio_read d' (direct_ptr inode i)).1) later
    ∙ in_block-ext passes (direct_ptr inode i) (bio_read d (direct_ptr inode i)).1
        (bio_read d' (direct_ptr inode i)).1 (first_in_blocks d inode passes (i + 1) n)
        (same i (omega arith) (omega arith))
    ∙ sym (first_in_blocks-suc d inode passes i n)

pub dir_find-ext :
    (s : Superblock) (d d' : Disk) (ino : ℕ) (fname : List ℕ) (len : ℕ)
    → SameDirectory s d d' ino
    → dir_find s d' ino fname len ≡ dir_find s d ino fname len
unfolding dir_find
dir_find-ext s d d' ino fname len same =
    let passes = λ (block : Mem) (j : ℕ). entry_matches block j fname len in
    let e =
      first_in_blocks-ext d d' (readi s d ino) (readi s d' ino) passes 0 16
        (λ k lo hi. same.pointers k (omega arith)) (λ k lo hi. same.blocks k (omega arith)) in
    elim (first_in_blocks-FirstInBlocks d (readi s d ino) passes 0 16) [
      | absent all f ↦ rw (dir_find, e) (rw (dir_find, f) refl)
      | present k j lo hi there lt pass f ↦
          rw (dir_find, e)
            (rw (dir_find, f)
              (ap (λ block. (0, some (entry_of_block block j)))
                (same.blocks k (omega arith) there)))
    ]

-- A walk goes on as it did where the directories on it are the same.
pub Walks-ext :
    (s : Superblock) (d d' : Disk) (P Q : ℕ → Type 0) (n ino : ℕ) (path : List (List ℕ))
    → ((i : ℕ) → P i → SameDirectory s d d' i × Q i)
    → Walks s d P n ino path
    → Walks s d' Q n ino path
Walks-ext s d d' P Q n ino [] same (arrived e) = arrived e
Walks-ext s d d' P Q n ino (token ∷ rest) same (down e p found more) =
    let (here, q) = same ino p in
    down e q (dir_find-ext s d d' ino token (length token) here ∙ found)
      (Walks-ext s d d' P Q n (load_half e 0) rest same more)

pub Resolves-ext :
    (s : Superblock) (d d' : Disk) (P Q : ℕ → Type 0) (path : List ℕ) (n : ℕ)
    → ((i : ℕ) → P i → SameDirectory s d d' i × Q i)
    → Resolves s d P path n
    → Resolves s d' Q path n
Resolves-ext s d d' P Q path n same (root e one) = root e one
Resolves-ext s d d' P Q path n same (walk e w) =
    walk e (Walks-ext s d d' P Q n 1 (tokens [] path) same w)
