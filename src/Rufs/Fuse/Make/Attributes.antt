-- ===== src/Rufs/Fuse/Make/Attributes.antt =====
-- What `rufs_getattr` tells of a file that `rufs_create` made in the root.
use cs.Prelude.{
  ℕ, ◌+◌, ◌^◌, ◌≤◌, ◌<◌, bit_or, ◌≡◌, refl, sym, ap, ◌∙◌, some, List, [], ◌∷◌, arith, pos, ok,
  length,
}
use mathlib.Core.Path.{subst}
use cs.Memory.{Mem, load_word}
use cs.Memory.Words.{load-ext}
use cs.Rufs.Disk.{Disk}
use cs.Rufs.Alloc.{Superblock}
use cs.Rufs.Inodes.{readi}
use cs.Rufs.Directory.{load_half, load_long, dir_find, walk_path, get_node_by_path}
use cs.Rufs.Fuse.{Fresh, slash}
use cs.Rufs.Fuse.Names.{NoSlash, base_name-root, dir_name-root, tokens-root}
use cs.Rufs.Fuse.Attributes.{Stat, rufs_getattr}
use cs.Rufs.Fuse.Make.{new_inode, s_ifreg, rufs_create}
use cs.Rufs.Fuse.Make.Fields.{
  new_inode-uid, new_inode-gid, new_inode-link, new_inode-size, new_inode-mode,
}
use cs.Rufs.Fuse.Make.Volume.{HasRoom}
use cs.Rufs.Fuse.Make.Created.{rufs_create-Created}

-- The root is found, and a name in it.
root_found :
    (s : Superblock) (d : Disk) → get_node_by_path s d (slash ∷ []) 1 ≡ (0, some (readi s d 1))
unfolding get_node_by_path
root_found s d = refl

entry_found :
    (s : Superblock) (d : Disk) (c : ℕ) (cs : List ℕ) (entry : Mem) (r : ℕ)
    → NoSlash (c ∷ cs)
    → dir_find s d 1 (c ∷ cs) (length (c ∷ cs)) ≡ (0, some entry)
    → load_half entry 0 ≡ r
    → get_node_by_path s d (slash ∷ c ∷ cs) 1 ≡ (0, some (readi s d r))
unfolding get_node_by_path walk_path
entry_found s d c cs entry r name found number =
    ap (walk_path s d 1) (tokens-root c cs name)
    ∙ rw (walk_path, found) (ap (λ i. (0, some (readi s d i))) number)

same_fields :
    (s : Superblock) (d : Disk) (now : ℕ) (path : List ℕ) (stbuf : Stat) (r : ℕ) (inode : Mem)
    → get_node_by_path s d path 1 ≡ (0, some (readi s d r))
    → ((k : ℕ) → k < 256 → readi s d r k ≡ inode k)
    → rufs_getattr s d now path stbuf ≡ (
      pos 0,
      record {
        st_uid = load_word inode 140;
        st_gid = load_word inode 144;
        st_nlink = load_word inode 12;
        st_size = load_long inode 160;
        st_mode = load_word inode 136;
        st_mtime = now;
      },
    )
unfolding rufs_getattr load_long
same_fields s d now path stbuf r inode found same =
    let word = λ (a : ℕ) (fits : a + 4 ≤ 256).
      load-ext (readi s d r) inode a (λ x lo hi. same x (omega arith)) in
    rw (rufs_getattr, found)
      (rw
        (
          word 140 (omega arith),
          word 144 (omega arith),
          word 12 (omega arith),
          word 160 (omega arith),
          word 164 (omega arith),
          word 136 (omega arith),
        )
        refl)

-- Where the root has room for a name without a slash, and the user, the group and the mode are
-- 32-bit numbers, `rufs_create` of it returns 0, and `rufs_getattr` of the same path then returns
-- 0 and gives the user, the group, one link, the size 0 and the mode of a regular file.
pub rufs_getattr-rufs_create :
    (s : Superblock) (w : Fresh) (c : ℕ) (cs : List ℕ) (mode now : ℕ) (stbuf : Stat) (d : Disk)
    (free_ino free_block unused : ℕ)
    → NoSlash (c ∷ cs)
    → HasRoom s d 1 (c ∷ cs) free_ino free_block unused
    → w.uid < 2 ^ 32
    → w.gid < 2 ^ 32
    → bit_or s_ifreg mode < 2 ^ 32
    → (d' : Disk) × (rufs_create s w (slash ∷ c ∷ cs) mode d ≡ ok (pos 0, d'))
      × (rufs_getattr s d' now (slash ∷ c ∷ cs) stbuf ≡ (
        pos 0,
        record {
          st_uid = w.uid;
          st_gid = w.gid;
          st_nlink = 1;
          st_size = 0;
          st_mode = bit_or s_ifreg mode;
          st_mtime = now;
        },
      ))
rufs_getattr-rufs_create s w c cs mode now stbuf d free_ino free_block unused name room u g m =
    let base = base_name-root c cs name in
    let (r, d', run, made) =
      rufs_create-Created s w (slash ∷ c ∷ cs) mode d 1 free_ino free_block unused
        (ap (λ p. get_node_by_path s d p 1) (dir_name-root c cs name) ∙ root_found s d)
        (subst (λ n. HasRoom s d 1 n free_ino free_block unused) (sym base) room) in
    let inode = new_inode w r s_ifreg 1 mode in
    let found = subst (λ n. dir_find s d' 1 n (length n) ≡ (0, some made.entry)) base made.found in
    (
      d',
      run,
      same_fields s d' now (slash ∷ c ∷ cs) stbuf r inode
            (entry_found s d' c cs made.entry r name found made.number) made.bytes
          ∙ ap
              (λ (v : ℕ × ℕ × ℕ × ℕ × ℕ). (
                pos 0,
                record {
                  st_uid = v.0;
                  st_gid = v.1;
                  st_nlink = v.2;
                  st_size = v.3;
                  st_mode = v.4;
                  st_mtime = now;
                },
              ))
              (fields w r mode u g m),
    )
  where
    fields :
        (w : Fresh) (r mode : ℕ)
        → w.uid < 2 ^ 32
        → w.gid < 2 ^ 32
        → bit_or s_ifreg mode < 2 ^ 32
        → ◌≡◌ {A = ℕ × ℕ × ℕ × ℕ × ℕ}
            (
              load_word (new_inode w r s_ifreg 1 mode) 140,
              load_word (new_inode w r s_ifreg 1 mode) 144,
              load_word (new_inode w r s_ifreg 1 mode) 12,
              load_long (new_inode w r s_ifreg 1 mode) 160,
              load_word (new_inode w r s_ifreg 1 mode) 136,
            )
            (w.uid, w.gid, 1, 0, bit_or s_ifreg mode)
    fields w r mode u g m =
        rw
          (
            new_inode-uid w r s_ifreg 1 mode u,
            new_inode-gid w r s_ifreg 1 mode g,
            new_inode-link w r s_ifreg 1 mode (omega arith),
            new_inode-size w r s_ifreg 1 mode,
            new_inode-mode w r s_ifreg 1 mode m,
          )
          refl
