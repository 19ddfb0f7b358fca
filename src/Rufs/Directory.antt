-- ===== src/Rufs/Directory.antt =====
-- Directories of project4/rufs.c: `dir_find`, `dir_add`, `dir_remove` and `get_node_by_path`. An
-- entry, a `struct dirent` of project4/rufs.h, has 256 bytes: the inode number at 0, the validity
-- at 2, the name at 4 and its length at 254. A string is the list of its bytes before the NUL.
pub mod Search
pub mod Entries
pub mod Rewrites
pub mod WellFormed
pub mod Added
pub mod Adding
pub mod Inserted
pub mod RoundTrip
pub mod Others
pub mod Keeping
pub mod Growing
pub mod Frame
pub mod Paths
use cs.Prelude.{
  length, ℕ, zero, suc, ◌+◌, ◌-◌, ◌*◌, ◌/◌, ◌%◌, ◌^◌, Bool, true, false, ◌&&◌, Option, none, some,
  List, [], ◌∷◌, ◌++◌, ltb, ◌==◌, if◌then◌else◌, update, Outcome, ok, fault, ◌>>=◌,
}
use cs.Memory.{Mem, load_word, store_word}
use cs.Rufs.Disk.{Disk, bio_read, bio_write}
use cs.Rufs.Alloc.{Superblock, get_avail_blkno}
use cs.Rufs.Inodes.{readi, writei}

-- `sizeof(struct dirent)`.
abbrev pub dirent_size : ℕ
dirent_size = 256

-- `uint16_t` and the eight bytes of an `off_t`.
unfoldable pub load_half : Mem → ℕ → ℕ
load_half m a = m a + 256 * m (a + 1)

unfoldable pub store_half : Mem → ℕ → ℕ → Mem
store_half m a v = update (update m a (v % 256)) (a + 1) (v / 256 % 256)

unfoldable pub load_long : Mem → ℕ → ℕ
load_long m a = load_word m a + 2 ^ 32 * load_word m (a + 4)

unfoldable pub store_long : Mem → ℕ → ℕ → Mem
store_long m a v = store_word (store_word m a (v % 2 ^ 32)) (a + 4) (v / 2 ^ 32 % 2 ^ 32)

-- `strcmp(m + a, name) == 0`.
unfoldable pub same_string : Mem → ℕ → List ℕ → Bool
same_string m a [] = m a == 0
same_string m a (c ∷ cs) = m a == c && same_string m (a + 1) cs

-- `strcpy`, in a buffer of a block: a write behind it is a fault.
unfoldable pub copy_string : Mem → ℕ → List ℕ → Outcome Mem
copy_string m a [] = if ltb a 4096 then ok (update m a 0) else fault
copy_string m a (c ∷ cs) = if ltb a 4096 then copy_string (update m a c) (a + 1) cs else fault

-- The fields of an inode: `direct_ptr[i]`, -1 where there is no block.
unfoldable pub direct_ptr : Mem → ℕ → ℕ
direct_ptr inode i = load_word inode (16 + 4 * i)

abbrev pub no_block : ℕ
no_block = 2 ^ 32 - 1

unfoldable pub entry_matches : Mem → ℕ → List ℕ → ℕ → Bool
entry_matches block j fname name_len =
    let e = dirent_size * j in
    load_half block (e + 2) == 1
    && load_half block (e + 254) == name_len
    && same_string block (e + 4) fname

-- The loop over the entries of a block, `n` of them from `j`, for the first that passes.
unfoldable pub first_entry : (ℕ → Bool) → ℕ → ℕ → Option ℕ
first_entry passes j zero = none
first_entry passes j (suc n) =
    let rest = first_entry passes (j + 1) n in if passes j then some j else rest

-- The loop over the blocks of a directory, `n` of them from `i`: the block and the entry.
unfoldable pub first_in_blocks : Disk → Mem → (Mem → ℕ → Bool) → ℕ → ℕ → Option (ℕ × ℕ)
first_in_blocks d inode passes i zero = none
first_in_blocks d inode passes i (suc n) =
    let rest = first_in_blocks d inode passes (i + 1) n in
    let b = direct_ptr inode i in
    if b == no_block
    then rest
    else elim (first_entry (passes (bio_read d b).1) 0 16) [ none ↦ rest | some j ↦ some (b, j) ]

abbrev pub enoent : ℕ
enoent = 2

abbrev pub eexist : ℕ
eexist = 17

-- The bytes of the entry `j` of a block.
abbrev pub entry_of_block : Mem → ℕ → Mem
entry_of_block block j k = block (dirent_size * j + k)

-- The return value, and the entry where it is 0.
unfoldable pub dir_find : Superblock → Disk → ℕ → List ℕ → ℕ → ℕ × Option Mem
dir_find s d ino fname name_len =
    let inode = readi s d ino in
    let found = first_in_blocks d inode (λ block j. entry_matches block j fname name_len) 0 16 in
    elim found [
      | none ↦ (enoent, none)
      | some (b, j) ↦ (0, some (entry_of_block (bio_read d b).1 j))
    ]

-- A filled entry: validity, inode number, name and length, in this order.
unfoldable pub fill_entry : Mem → ℕ → ℕ → List ℕ → ℕ → Outcome Mem
fill_entry block j f_ino fname name_len =
    let e = dirent_size * j in
    copy_string (store_half (store_half block (e + 2) 1) e f_ino) (e + 4) fname >>= λ m.
    ok (store_half m (e + 254) name_len)

-- `size` at 4 and `vstat.st_size` at 160 grow by an entry.
unfoldable pub grow_inode : Mem → Mem
grow_inode inode =
    let m = store_word inode 4 ((load_word inode 4 + dirent_size) % 2 ^ 32) in
    store_long m 160 ((load_long m 160 + dirent_size) % 2 ^ 64)

-- `valid = 0` in the entries of a fresh block, `n` of them from `j`.
unfoldable pub clear_entries : Mem → ℕ → ℕ → Mem
clear_entries m j zero = m
clear_entries m j (suc n) = clear_entries (store_half m (dirent_size * j + 2) 0) (j + 1) n

-- The first index from `i` that has no block.
unfoldable pub first_unused : Mem → ℕ → ℕ → Option ℕ
first_unused inode i zero = none
first_unused inode i (suc n) =
    let rest = first_unused inode (i + 1) n in
    if direct_ptr inode i == no_block then some i else rest

-- The branch that takes a new block; `fresh` is what stands in it. Where no index is left the
-- index is read without a value.
unfoldable pub add_in_new_block :
    Superblock → Disk → Mem → Mem → ℕ → List ℕ → ℕ → Outcome (ℕ × Disk)
add_in_new_block s d fresh inode f_ino fname name_len = do
  r ← get_avail_blkno s d
  let (b, d') = r
  i ← elim (first_unused inode 0 16) [ none ↦ fault | some i ↦ ok i ]
  let inode' = grow_inode (store_word inode (16 + 4 * i) b)
  let d'' = writei s d' (load_half inode' 0) inode'
  block ← fill_entry (clear_entries fresh 0 16) 0 f_ino fname name_len
  ok (0, (bio_write d'' b block).1)

unfoldable pub dir_add : Superblock → Disk → Mem → Mem → ℕ → List ℕ → ℕ → Outcome (ℕ × Disk)
dir_add s d fresh inode f_ino fname name_len =
    let found = first_in_blocks d inode (λ block j. entry_matches block j fname name_len) 0 16 in
    let free =
      first_in_blocks d inode (λ block j. load_half block (dirent_size * j + 2) == 0) 0 16 in
    elim found [
      | some _ ↦ ok (eexist, d)
      | none ↦ elim free [
        | none ↦ add_in_new_block s d fresh inode f_ino fname name_len
        | some (b, j) ↦ fill_entry (bio_read d b).1 j f_ino fname name_len >>= (λ block.
            let d' = writei s d (load_half inode 0) (grow_inode inode) in
            ok (0, (bio_write d' b block).1))
      ]
    ]

-- The function has no body.
unfoldable pub dir_remove : Disk → ℕ × Disk
dir_remove d = (0, d)

abbrev pub is_empty : List ℕ → Bool
is_empty [] = true
is_empty (_ ∷ _) = false

-- The tokens that `strtok(path, "/")` gives one after the other, behind the token begun so far.
unfoldable pub tokens : List ℕ → List ℕ → List (List ℕ)
tokens begun [] = if is_empty begun then [] else begun ∷ []
tokens begun (c ∷ cs) = elim (c == 47) [
  | false ↦ tokens (begun ++ c ∷ []) cs
  | true ↦ elim (is_empty begun) [ true ↦ tokens [] cs | false ↦ begun ∷ tokens [] cs ]
]

-- The loop of `get_node_by_path`.
unfoldable pub walk_path : Superblock → Disk → ℕ → List (List ℕ) → ℕ × Option Mem
walk_path s d ino [] = (0, some (readi s d ino))
walk_path s d ino (token ∷ rest) = elim (dir_find s d ino token (length token)).1 [
  | none ↦ (enoent, none)
  | some dirent ↦ walk_path s d (load_half dirent 0) rest
]

abbrev pub is_root : List ℕ → Bool
is_root (c ∷ []) = c == 47
is_root _ = false

unfoldable pub get_node_by_path : Superblock → Disk → List ℕ → ℕ → ℕ × Option Mem
get_node_by_path s d path ino =
    if is_root path then (0, some (readi s d 1)) else walk_path s d ino (tokens [] path)
