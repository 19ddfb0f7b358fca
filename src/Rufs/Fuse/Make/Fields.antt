-- ===== src/Rufs/Fuse/Make/Fields.antt =====
-- The fields of a new inode.
use cs.Prelude.{
  ℕ, zero, suc, ◌+◌, ◌*◌, ◌/◌, ◌%◌, ◌^◌, ◌≤◌, ◌<◌, bit_or, ◌≡◌, refl, ◌∙◌, ◌⊎◌, inl, inr, arith,
}
use cs.Memory.{Mem, load_word, store_word}
use cs.Memory.Words.{load-store, load-store_apart}
use cs.Rufs.Directory.{load_long, store_half, store_long, no_block}
use cs.Rufs.Directory.Rewrites.{long-apart}
use cs.Rufs.Mkfs.Root.{clear_pointers-below}
use cs.Rufs.Mkfs.{clear_pointers}
use cs.Rufs.Fuse.{Fresh}
use cs.Rufs.Fuse.Make.{new_inode}

clear_pointers-above :
    (m : Mem) (i n a : ℕ)
    → 16 + 4 * (i + n) ≤ a
    → load_word (clear_pointers m i n) a ≡ load_word m a
unfolding clear_pointers
clear_pointers-above m i zero a hi = refl
clear_pointers-above m i (suc n) a hi =
    clear_pointers-above (store_word m (16 + 4 * i) no_block) (i + 1) n a (omega arith)
    ∙ load-store_apart m (16 + 4 * i) no_block a (inr (omega arith))

pub long-store : (m : Mem) (a v : ℕ) → v < 2 ^ 64 → load_long (store_long m a v) a ≡ v
unfolding load_long store_long
long-store m a v lt =
    let low = store_word m a (v % 2 ^ 32) in
    let p =
      load-store_apart low (a + 4) (v / 2 ^ 32 % 2 ^ 32) a (inl (omega arith))
      ∙ load-store m a (v % 2 ^ 32) (omega arith) in
    let q = load-store low (a + 4) (v / 2 ^ 32 % 2 ^ 32) (omega arith) in rw (p, q) (omega arith)

module _ (w : Fresh) (ino type link mode : ℕ) where
  abbrev heads : Mem
  heads =
      let m1 = store_half (store_half w.inode 0 ino) 2 1 in
      store_word (store_word (store_word m1 4 0) 8 type) 12 link

  abbrev owned : Mem
  owned = store_word (store_word heads 140 w.uid) 144 w.gid

  abbrev dated : Mem
  dated = store_long (store_long (store_long owned 128 link) 200 w.now) 160 0

  -- The fields behind the pointers that are not a part of the times or of the size.
  behind :
      (a : ℕ)
      → 80 ≤ a
      → (a + 4 ≤ 136) ⊎ (140 ≤ a)
      → load_word (new_inode w ino type link mode) a ≡ load_word dated a
  unfolding new_inode
  behind a hi apart =
      clear_pointers-above (store_word dated 136 (bit_or type mode)) 0 16 a (omega arith)
      ∙ load-store_apart dated 136 (bit_or type mode) a apart

  undated : (a : ℕ) → 136 ≤ a → a + 4 ≤ 160 → load_word dated a ≡ load_word owned a
  undated a lo hi =
      long-apart (store_long (store_long owned 128 link) 200 w.now) 160 0 a (inl (omega arith))
      ∙ long-apart (store_long owned 128 link) 200 w.now a (inl (omega arith))
      ∙ long-apart owned 128 link a (inr (omega arith))

  pub new_inode-uid : w.uid < 2 ^ 32 → load_word (new_inode w ino type link mode) 140 ≡ w.uid
  new_inode-uid lt =
      behind 140 (omega arith) (inr (omega arith))
      ∙ undated 140 (omega arith) (omega arith)
      ∙ load-store_apart (store_word heads 140 w.uid) 144 w.gid 140 (inl (omega arith))
      ∙ load-store heads 140 w.uid lt

  pub new_inode-gid : w.gid < 2 ^ 32 → load_word (new_inode w ino type link mode) 144 ≡ w.gid
  new_inode-gid lt =
      behind 144 (omega arith) (inr (omega arith))
      ∙ undated 144 (omega arith) (omega arith)
      ∙ load-store (store_word heads 140 w.uid) 144 w.gid lt

  pub new_inode-size : load_long (new_inode w ino type link mode) 160 ≡ 0
  unfolding load_long
  new_inode-size =
      rw
        (behind 160 (omega arith) (inr (omega arith)), behind 164 (omega arith) (inr (omega arith)))
        (long-store (store_long (store_long owned 128 link) 200 w.now) 160 0 (omega arith))

  pub new_inode-mode :
      bit_or type mode < 2 ^ 32 → load_word (new_inode w ino type link mode) 136 ≡ bit_or type mode
  unfolding new_inode
  new_inode-mode lt =
      clear_pointers-above (store_word dated 136 (bit_or type mode)) 0 16 136 (omega arith)
      ∙ load-store dated 136 (bit_or type mode) lt

  pub new_inode-link : link < 2 ^ 32 → load_word (new_inode w ino type link mode) 12 ≡ link
  unfolding new_inode
  new_inode-link lt =
      let m1 = store_half (store_half w.inode 0 ino) 2 1 in
      clear_pointers-below (store_word dated 136 (bit_or type mode)) 0 16 12 (omega arith)
      ∙ load-store_apart dated 136 (bit_or type mode) 12 (inl (omega arith))
      ∙ long-apart (store_long (store_long owned 128 link) 200 w.now) 160 0 12 (inl (omega arith))
      ∙ long-apart (store_long owned 128 link) 200 w.now 12 (inl (omega arith))
      ∙ long-apart owned 128 link 12 (inl (omega arith))
      ∙ load-store_apart (store_word heads 140 w.uid) 144 w.gid 12 (inl (omega arith))
      ∙ load-store_apart heads 140 w.uid 12 (inl (omega arith))
      ∙ load-store (store_word (store_word m1 4 0) 8 type) 12 link lt
