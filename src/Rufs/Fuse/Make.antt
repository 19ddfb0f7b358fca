-- ===== src/Rufs/Fuse/Make.antt =====
-- `rufs_create`, `rufs_mkdir`, and the calls without a body, of project4/rufs.c.
pub mod Fields
pub mod Volume
pub mod Created
pub mod Attributes
use cs.Prelude.{
  ℕ, bit_or, none, some, List, [], ◌∷◌, ◌==◌, if◌then◌else◌, ℤ, pos, Outcome, ok, ◌>>=◌, length,
}
use cs.Memory.{Mem, store_word}
use cs.Rufs.Disk.{Disk}
use cs.Rufs.Alloc.{Superblock, get_avail_ino}
use cs.Rufs.Inodes.{readi, writei}
use cs.Rufs.Directory.{
  load_half, store_half, store_long, enoent, dir_find, dir_add, get_node_by_path,
}
use cs.Rufs.Mkfs.{s_ifdir, clear_pointers}
use cs.Rufs.Fuse.{Fresh, minus_enoent, base_name, dir_name}

-- `S_IFREG`.
abbrev pub s_ifreg : ℕ
s_ifreg = 32768

-- The fields of the new inode, in the order in which they are written.
unfoldable pub new_inode : Fresh → ℕ → ℕ → ℕ → ℕ → Mem
new_inode w ino type link mode =
    let m1 = store_half (store_half w.inode 0 ino) 2 1 in
    let m2 = store_word (store_word (store_word m1 4 0) 8 type) 12 link in
    let m3 = store_word (store_word m2 140 w.uid) 144 w.gid in
    let m4 = store_long (store_long (store_long m3 128 link) 200 w.now) 160 0 in
    clear_pointers (store_word m4 136 (bit_or type mode)) 0 16

-- What the steps 1 to 4 come to: a value to return, or the number of the new inode.
pub data Claimed : Type 0 where
  refused : ℤ → Disk → Claimed
  claimed : ℕ → Disk → Claimed

-- The steps 1 to 4 of `rufs_mkdir`, which `rufs_create` has too: the parent directory, the name in
-- it, the number of an inode, and the entry of the parent.
unfoldable pub claim_name : Superblock → Fresh → List ℕ → Disk → Outcome Claimed
claim_name s w path d =
    let base = base_name path in
    elim (get_node_by_path s d (dir_name path) 1).1 [
      | none ↦ ok (refused (pos enoent) d)
      | some dir_inode ↦
          if (dir_find s d (load_half dir_inode 0) base (length base)).0 == 0
          then ok (refused minus_enoent d)
          else get_avail_ino s d >>= (λ (ino, d1).
            dir_add s d1 (w.entries 0) dir_inode ino base (length base) >>= λ (code, d2).
            ok (if code == 0 then claimed ino d2 else refused (pos enoent) d2))
    ]

unfoldable pub rufs_create : Superblock → Fresh → List ℕ → ℕ → Disk → Outcome (ℤ × Disk)
rufs_create s w path mode d = claim_name s w path d >>= λ c. elim c [
  | refused code d1 ↦ ok (code, d1)
  | claimed ino d1 ↦ ok (pos 0, writei s d1 ino (new_inode w ino s_ifreg 1 mode))
]

-- The entries "." and ".." go to the new directory; what `dir_add` returns is not looked at.
unfoldable pub rufs_mkdir : Superblock → Fresh → List ℕ → ℕ → Disk → Outcome (ℤ × Disk)
rufs_mkdir s w path mode d = claim_name s w path d >>= λ c. elim c [
  | refused code d1 ↦ ok (code, d1)
  | claimed ino d1 ↦ do
    let d2 = writei s d1 ino (new_inode w ino s_ifdir 2 mode)
    one ← dir_add s d2 (w.entries 1) (readi s d2 ino) ino (46 ∷ []) 1
    two ← dir_add s one.1 (w.entries 2) (readi s one.1 ino) ino (46 ∷ 46 ∷ []) 2
    ok (pos 0, two.1)
]

-- `rufs_rmdir`, `rufs_releasedir`, `rufs_unlink`, `rufs_truncate`, `rufs_release`, `rufs_flush` and
-- `rufs_utimens` have no body but the return.
pub data NoBody : Type 0 where
  rmdir releasedir unlink truncate release flush utimens : NoBody

unfoldable pub no_body : NoBody → Disk → ℤ × Disk
no_body call d = (pos 0, d)
