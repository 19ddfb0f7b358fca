-- ===== src/Rufs/Fuse/Attributes.antt =====
-- The FUSE calls of project4/rufs.c that only look: `rufs_getattr`, `rufs_opendir`, `rufs_open`
-- and `rufs_readdir`. None of them writes to the disk.
use cs.Prelude.{
  ℕ, zero, suc, ◌+◌, ◌-◌, ◌*◌, true, false, none, some, List, [], ◌∷◌, ◌++◌, ◌==◌, if◌then◌else◌, ℤ,
  pos, negsuc, Outcome, ok, fault, ◌>>=◌,
}
use cs.Memory.{Mem, load_word}
use cs.Rufs.Disk.{Disk, bio_read}
use cs.Rufs.Alloc.{Superblock}
use cs.Rufs.Directory.{
  dirent_size, load_half, load_long, direct_ptr, no_block, enoent, get_node_by_path,
}
use cs.Rufs.Fuse.{minus_enoent}

-- The fields of a `struct stat` that the call fills.
pub record Stat : Type 0 where
  pub st_uid : ℕ
  pub st_gid : ℕ
  pub st_nlink : ℕ
  pub st_size : ℕ
  pub st_mode : ℕ
  pub st_mtime : ℕ

unfoldable pub rufs_getattr : Superblock → Disk → ℕ → List ℕ → Stat → ℤ × Stat
rufs_getattr s d now path stbuf = elim (get_node_by_path s d path 1).1 [
  | none ↦ (minus_enoent, stbuf)
  | some inode ↦ (
    pos 0,
    record {
      st_uid = load_word inode 140;
      st_gid = load_word inode 144;
      st_nlink = load_word inode 12;
      st_size = load_long inode 160;
      st_mode = load_word inode 136;
      st_mtime = now;
    },
  )
]

unfoldable pub rufs_opendir : Superblock → Disk → List ℕ → ℤ
rufs_opendir s d path = if (get_node_by_path s d path 1).0 == 0 then pos 0 else negsuc 0

unfoldable pub rufs_open : Superblock → Disk → List ℕ → ℤ
rufs_open s d path = if (get_node_by_path s d path 1).0 == 0 then pos 0 else negsuc 0

-- The string at an address of a block, of which `n` bytes are left.
unfoldable pub string_at : Mem → ℕ → ℕ → Outcome (List ℕ)
string_at m a zero = fault
string_at m a (suc n) = elim (m a == 0) [
  | true ↦ ok []
  | false ↦ string_at m (a + 1) n >>= λ rest. ok (m a ∷ rest)
]

-- The loop over the entries of a block, `n` of them from `j`: the names that `filler` gets.
unfoldable pub names_in_block : Mem → ℕ → ℕ → Outcome (List (List ℕ))
names_in_block block j zero = ok []
names_in_block block j (suc n) = elim (load_half block (dirent_size * j + 2) == 1) [
  | false ↦ names_in_block block (j + 1) n
  | true ↦ do
    name ← string_at block (dirent_size * j + 4) (4096 - (dirent_size * j + 4))
    rest ← names_in_block block (j + 1) n
    ok (name ∷ rest)
]

unfoldable pub names_in_blocks : Disk → Mem → ℕ → ℕ → Outcome (List (List ℕ))
names_in_blocks d inode i zero = ok []
names_in_blocks d inode i (suc n) = elim (direct_ptr inode i == no_block) [
  | true ↦ names_in_blocks d inode (i + 1) n
  | false ↦ do
    here ← names_in_block (bio_read d (direct_ptr inode i)).1 0 16
    rest ← names_in_blocks d inode (i + 1) n
    ok (here ++ rest)
]

-- The return value, and the names in the order in which `filler` gets them.
unfoldable pub rufs_readdir : Superblock → Disk → List ℕ → Outcome (ℤ × List (List ℕ))
rufs_readdir s d path = elim (get_node_by_path s d path 1).1 [
  | none ↦ ok (pos enoent, [])
  | some inode ↦ names_in_blocks d inode 0 16 >>= λ names. ok (pos 0, names)
]
