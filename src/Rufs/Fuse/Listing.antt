-- ===== src/Rufs/Fuse/Listing.antt =====
-- `rufs_readdir` of project4/rufs.c, and the names of a directory.
use mathlib.Core.Path.{subst}
use mathlib.Core.List.{Memᴰ}
use mathlib.Core.List.Memᴰ
use cs.Prelude.{
  ℕ, zero, suc, ◌+◌, ◌*◌, ◌≤◌, ◌<◌, ◌≡◌, refl, sym, ap, ◌∙◌, ◌≢◌, ◌⊎◌, inl, inr, true, false,
  Option, some, List, [], ◌++◌, arith, ◌==◌, ==_iff, Bool-cases, pos, ok,
}
use cs.Memory.{Mem}
use cs.Rufs.Disk.{Disk, bio_read}
use cs.Rufs.Alloc.{Superblock}
use cs.Rufs.Inodes.{readi}
use cs.Rufs.Directory.{direct_ptr, no_block, load_half, dir_find, get_node_by_path}
use cs.Rufs.Directory.Search.{no_such, finds, dir_find-Finds}
use cs.Rufs.Directory.Others.{NoZero}
use cs.Rufs.Fuse.Attributes.{names_in_blocks, rufs_readdir}
use cs.Rufs.Fuse.Listed.{HoldsName, Named, matched, matches, names_in_block-Lists}

-- The names of the blocks `i` to `i + n` of a directory.
record ListsBlocks (d : Disk) (inode : Mem) (i n : ℕ) (names : List (List ℕ)) : Type 0 where
  complete :
      (k j : ℕ) (name : List ℕ)
      → i ≤ k
      → k < i + n
      → direct_ptr inode k ≢ no_block
      → j < 16
      → NoZero name
      → HoldsName (bio_read d (direct_ptr inode k)).1 j name
      → Memᴰ name names
  sound :
      (name : List ℕ)
      → Memᴰ name names
      → (k : ℕ) × (j : ℕ) × (i ≤ k)
        × (k < i + n)
        × (direct_ptr inode k ≢ no_block)
        × (j < 16)
        × HoldsName (bio_read d (direct_ptr inode k)).1 j name

abbrev pub AllNamed : Disk → Mem → Type 0
AllNamed d inode =
    (k : ℕ) → k < 16 → direct_ptr inode k ≢ no_block → Named (bio_read d (direct_ptr inode k)).1

names_in_blocks-ListsBlocks :
    (d : Disk) (inode : Mem) (i n : ℕ)
    → AllNamed d inode
    → i + n ≤ 16
    → (names : List (List ℕ)) × (names_in_blocks d inode i n ≡ ok names)
      × ListsBlocks d inode i n names
unfolding names_in_blocks
names_in_blocks-ListsBlocks d inode i zero named le = (
  [],
  refl,
  record {
    complete = λ k j name lo hi there lt whole h. absurd (omega arith);
    sound = λ name h. elim h [ ];
  },
)
names_in_blocks-ListsBlocks d inode i (suc n) named le =
    let (names, run, l) = names_in_blocks-ListsBlocks d inode (i + 1) n named (omega arith) in
    elim (Bool-cases (direct_ptr inode i == no_block)) [
      | inl no_b ↦ (
        names,
        rw (names_in_blocks, no_b) run,
        record {
          complete = λ k j name lo hi there lt whole h. elim (Bool-cases (i == k)) [
            | inl here ↦ absurd (
                there (
                  ap (direct_ptr inode) (sym ((==_iff i k).0 here))
                  ∙ (==_iff (direct_ptr inode i) no_block).0 no_b))
            | inr far ↦ l.complete k j name (ground arith) (omega arith) there lt whole h
          ];
          sound = λ name h.
              let (k, j, lo, hi, there, lt, at) = l.sound name h in
              (k, j, omega arith, omega arith, there, lt, at);
        },
      )
      | inr is_b ↦
          let block = (bio_read d (direct_ptr inode i)).1 in
          let there_i : direct_ptr inode i ≢ no_block =
            λ z. unequal (direct_ptr inode i) no_block is_b z in
          let (here, read, lh) =
            names_in_block-Lists block 0 16 (named i (omega arith) there_i) (omega arith) in
          (
            here ++ names,
            rw (names_in_blocks, is_b) (rw read (rw run refl)),
            record {
              complete = λ k j name lo hi there lt whole h. elim (Bool-cases (i == k)) [
                | inl same ↦ in_first name here names (
                    lh.complete j name (omega arith) (omega arith) whole (
                      subst (λ a. HoldsName (bio_read d (direct_ptr inode a)).1 j name)
                        (sym ((==_iff i k).0 same)) h))
                | inr far ↦
                    in_second name here names
                      (l.complete k j name (ground arith) (omega arith) there lt whole h)
              ];
              sound = λ name h. elim (in_either name here names h) [
                | inl first ↦
                    let (j, lo, hi, at) = lh.sound name first in
                    (i, j, omega arith, omega arith, there_i, omega arith, at)
                | inr second ↦
                    let (k, j, lo, hi, there, lt, at) = l.sound name second in
                    (k, j, omega arith, omega arith, there, lt, at)
              ];
            },
          )
    ]
  where
    unequal : (x y : ℕ) → (x == y) ≡ false → x ≢ y
    unequal x y e z = ground arith

    in_first : (x : List ℕ) (xs ys : List (List ℕ)) → Memᴰ x xs → Memᴰ x (xs ++ ys)
    in_first x xs ys h = Memᴰ.append_left ys h

    in_second : (x : List ℕ) (xs ys : List (List ℕ)) → Memᴰ x ys → Memᴰ x (xs ++ ys)
    in_second x xs ys h = Memᴰ.append_right xs h

    in_either : (x : List ℕ) (xs ys : List (List ℕ)) → Memᴰ x (xs ++ ys) → Memᴰ x xs ⊎ Memᴰ x ys
    in_either x xs ys h = Memᴰ.append_cases xs h

-- Where the path leads to a directory in whose blocks every valid entry has a name that ends,
-- `rufs_readdir` returns 0. It passes on each name that `dir_find` finds in the directory, and for
-- each name that it passes on there is a length with which `dir_find` finds it.
pub rufs_readdir-dir_find :
    (s : Superblock) (d : Disk) (path : List ℕ) (ino : ℕ)
    → get_node_by_path s d path 1 ≡ (0, some (readi s d ino))
    → AllNamed d (readi s d ino)
    → (names : List (List ℕ)) × (rufs_readdir s d path ≡ ok (pos 0, names))
      × ((fname : List ℕ) (len : ℕ)
          → NoZero fname
          → (dir_find s d ino fname len).0 ≡ 0
          → Memᴰ fname names)
      × ((fname : List ℕ) → Memᴰ fname names → (len : ℕ) × ((dir_find s d ino fname len).0 ≡ 0))
unfolding rufs_readdir
rufs_readdir-dir_find s d path ino leads named =
    let inode = readi s d ino in
    let (names, run, l) = names_in_blocks-ListsBlocks d inode 0 16 named (omega arith) in
    (
      names,
      rw (rufs_readdir, leads) (rw run refl),
      λ fname len whole found. elim (dir_find-Finds s d ino fname len) [
        | no_such all e ↦ absurd (not_both (dir_find s d ino fname len).0 (ap code e) found)
        | finds k j lt there lt' pass e ↦
            l.complete k j fname (omega arith) (omega arith) there lt' whole
              (matched (bio_read d (direct_ptr inode k)).1 j fname len pass)
      ],
      λ fname h.
          let (k, j, lo, hi, there, lt, at) = l.sound fname h in
          let m = (bio_read d (direct_ptr inode k)).1 in
          let len = load_half m (256 * j + 254) in
          (
            len,
            elim (dir_find-Finds s d ino fname len) [
              | no_such all e ↦
                  absurd (differ (sym (matches m j fname at) ∙ all k j (omega arith) there lt))
              | finds k' j' lt there' lt' pass e ↦ ap code e
            ],
          ),
    )
  where
    code : ℕ × Option Mem → ℕ
    code r = r.0

    not_both : (n : ℕ) → n ≡ 2 → n ≢ 0
    not_both n e z = omega arith

    differ : true ≢ false
    differ z = cc
