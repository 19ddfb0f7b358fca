-- ===== src/Rufs/Directory/Inserted.antt =====
-- `dir_add` of a new name, in a block of the directory or in a new one.
use mathlib.Core.Path.{subst}
use cs.Prelude.{
  refl, ==_iff, ℕ, ◌+◌, ◌*◌, ◌^◌, ◌≤◌, ◌<◌, ◌≡◌, sym, ap, ◌∙◌, ◌≢◌, none, some, List, arith,
  Outcome, ok, length,
}
use cs.Memory.{Mem, store_word}
use cs.Rufs.Disk.{Disk, opened, bio_read, bio_write}
use cs.Rufs.Alloc.{Superblock}
use cs.Rufs.Alloc.Takes.{disk_bit, get_avail_blkno-Takes}
use cs.Rufs.Inodes.{readi, writei, inode_block}
use cs.Rufs.Directory.{
  direct_ptr, no_block, grow_inode, load_half, entry_matches, first_in_blocks, clear_entries,
  dir_find, dir_add,
}
use cs.Rufs.Directory.Search.{absent, present, first_in_blocks-FirstInBlocks}
use cs.Rufs.Directory.Entries.{entry_matches-ext, fill_entry-Filled, clear_entries-invalid}
use cs.Rufs.Directory.Rewrites.{direct_ptr-grow_inode, bio_write-Rewritten}
use cs.Rufs.Directory.Added.{HasEntry, entry_written}
use cs.Rufs.Directory.WellFormed.{IsDirectory, Rewritten-IsDirectory}
use cs.Rufs.Directory.Others.{NoZero, entry_matches_other, KeptAt}
use cs.Rufs.Directory.Growing.{Grows, Grows-free, Grows-new}
use cs.Rufs.Directory.Keeping.{BlocksUsed, kept-free, kept-new}
use cs.Rufs.Directory.Adding.{
  grown_number_same, is_free, dir_add_free, dir_add_new, not_found, first_unused-some, grown_number,
  clash, below, at_same, at_other, at_least, grown_pointer, invalid_differs,
}

-- The other names have the entries that they had.
abbrev pub Keeps : Superblock → Disk → Disk → ℕ → List ℕ → Type 0
Keeps s d d' ino fname =
    (other : List ℕ) (len : ℕ)
    → NoZero fname
    → NoZero other
    → other ≢ fname
    → length other < 250
    → (k : ℕ) → k < 16
    → KeptAt s d d' ino other len k

-- What `dir_add` comes to: an entry with the number, in a directory as before.
pub data Adds (s : Superblock) (d : Disk) (ino f_ino : ℕ) (fname : List ℕ) (len : ℕ)
    (r : Outcome (ℕ × Disk)) : Type 0 where
  adds :
      (d' : Disk) (b k j : ℕ)
      → r ≡ ok (0, d')
      → IsDirectory s d' ino
      → HasEntry s d' ino f_ino fname len b k j
      → (BlocksUsed s d ino → Keeps s d d' ino fname)
      → Grows s d d' ino
      → Adds s d ino f_ino fname len r

module _ (s : Superblock) (d : Disk) (fresh : Mem) (ino f_ino : ℕ) (fname : List ℕ) (len : ℕ)
    (dir : IsDirectory s d ino) (missing : (dir_find s d ino fname len).0 ≢ 0)
    (small : f_ino < 65536) (fits : len < 65536) (short : length fname < 250) where
  abbrev inode : Mem
  inode = readi s d ino

  abbrev op : d.diskfile ≡ opened
  op = dir.has_bitmap.is_opened

  abbrev Added : Type 0
  Added = Adds s d ino f_ino fname len (dir_add s d fresh inode f_ino fname len)

  in_free_entry :
      (k j : ℕ)
      → k < 16
      → direct_ptr inode k ≢ no_block
      → j < 16
      → load_half (bio_read d (direct_ptr inode k)).1 (256 * j + 2) ≡ 0
      → first_in_blocks d inode is_free 0 16 ≡ some (direct_ptr inode k, j)
      → Added
  in_free_entry k j ltk there lt unused free =
      let b = direct_ptr inode k in
      let (none_named, absent_here) = not_found s d ino fname len missing in
      let (block, f) = fill_entry-Filled (bio_read d b).1 j f_ino fname len lt small fits short in
      let ptr = λ (i : ℕ) (h : i < 16). direct_ptr-grow_inode inode i h in
      let apart : (i : ℕ)
          → i < 16
          → direct_ptr inode i ≢ no_block
          → direct_ptr inode i ≢ inode_block s ino =
        λ i h t z.
          clash (direct_ptr inode i) (inode_block s ino) s.d_start_blk z (dir.data_blocks i h t)
            dir.inode_first in
      let w =
        bio_write-Rewritten s d ino (grow_inode inode) b block op
          (λ z. apart k ltk there (sym z)) in
      adds (bio_write (writei s d ino (grow_inode inode)) b block).1 b k j
        (dir_add_free s d fresh inode f_ino fname len b j block none_named free f.run
          ∙ ap (λ n. ok (0, (bio_write (writei s d n (grow_inode inode)) b block).1))
              dir.own_number)
        (Rewritten-IsDirectory s d d _ ino (grow_inode inode) b block dir dir.has_bitmap w
          (dir.data_blocks k ltk there) (grown_number_same inode ∙ dir.own_number)
          (λ i h t.
            subst (λ c. s.d_start_blk ≤ c) (sym (ptr i h))
              (dir.data_blocks i h (λ z. t (ptr i h ∙ z)))))
        (entry_written s d _ ino f_ino fname len b k j (grow_inode inode) (bio_read d b).1 block w f
          short lt ltk (ptr k ltk) there
          (
            λ i h ne. absent_here k i ltk there h,
            λ k' i h there' far hi.
                let q = ptr k' h in
                (
                  λ z. apart k' h (λ y. there' (q ∙ y)) (sym q ∙ z),
                  ap (λ c. entry_matches (bio_read d c).1 i fname len) q
                      ∙ absent_here k' i h (λ y. there' (q ∙ y)) hi,
                ),
          ))
        (λ _ other len' no_f no_o ne short'.
          kept-free s d d _ ino j f_ino fname len (grow_inode inode) (bio_read d b).1 block b w f
            other len' short'
            (entry_matches_other block j fname other len len' no_f no_o ne f.matches) refl refl
            unused ptr apart)
        (Grows-free s d d _ ino (grow_inode inode) b block w
          (λ z.
            clash b s.d_bitmap_blk s.d_start_blk (sym z) (dir.data_blocks k ltk there)
              dir.bitmap_first)
          dir.bitmap_apart refl ptr)

  in_new_block :
      (free_block unused : ℕ)
      → first_in_blocks d inode is_free 0 16 ≡ none
      → free_block < 16384
      → disk_bit d s.d_bitmap_blk free_block ≡ 0
      → unused < 16
      → direct_ptr inode unused ≡ no_block
      → Added
  in_new_block free_block unused full inside clear lt nothing =
      let (none_named, absent_here) = not_found s d ino fname len missing in
      let (r, d1, run, upto, takes) =
        get_avail_blkno-Takes s d free_block dir.has_bitmap inside clear in
      let b = r + s.d_start_blk in
      let few : b < 2 ^ 31 = omega (arith, dir.few, upto) in
      let (i, first, lti, nothing_i) =
        first_unused-some inode 0 16 unused (omega arith) (omega arith) nothing in
      let (block, f) =
        fill_entry-Filled (clear_entries fresh 0 16) 0 f_ino fname len (omega arith) small fits
          short in
      let inode' = grow_inode (store_word inode (16 + 4 * i) b) in
      let own : load_half inode' 0 ≡ ino =
        grown_number inode (16 + 4 * i) b (omega arith) ∙ dir.own_number in
      let ptr = λ (k : ℕ) (h : k < 16). grown_pointer inode i b k (omega arith) h in
      let w =
        bio_write-Rewritten s d1 ino inode' b block takes.still_open
          (λ z. below (inode_block s ino) s.d_start_blk r dir.inode_first z) in
      adds (bio_write (writei s d1 ino inode') b block).1 b i 0
        (dir_add_new s d d1 fresh inode f_ino fname len b i block none_named full run first f.run
          ∙ ap (λ n. ok (0, (bio_write (writei s d1 n inode') b block).1)) own)
        (Rewritten-IsDirectory s d d1 _ ino inode' b block dir
          (record { is_opened = takes.still_open; whole = takes.still_whole }) w (omega arith) own
          (λ k h t.
            subst (λ c. s.d_start_blk ≤ c) (sym (ptr k h))
              (at_least i k b (direct_ptr inode k) s.d_start_blk (omega arith) (λ z.
                dir.data_blocks k h
                  (λ y. t (ptr k h ∙ at_other i k b (direct_ptr inode k) z ∙ y))))))
        (entry_written s d1 _ ino f_ino fname len b i 0 inode' (clear_entries fresh 0 16) block w f
          short (omega arith) lti (ptr i lti ∙ at_same i b (direct_ptr inode i)) (λ z. omega arith)
          (
            λ j h ne.
                invalid_differs (clear_entries fresh 0 16) j fname len
                  (clear_entries-invalid fresh 0 16 j (omega arith) (omega arith)),
            λ k j h there far hi.
                let q = ptr k h ∙ at_other i k b (direct_ptr inode k) (λ z. far (ptr k h ∙ z)) in
                let old : direct_ptr inode k ≢ no_block = λ y. there (q ∙ y) in
                (
                  λ z.
                      clash (direct_ptr inode k) (inode_block s ino) s.d_start_blk (sym q ∙ z)
                        (dir.data_blocks k h old) dir.inode_first,
                  ap (λ c. entry_matches (bio_read d1 c).1 j fname len) q
                      ∙ entry_matches-ext (bio_read d1 (direct_ptr inode k)).1
                          (bio_read d (direct_ptr inode k)).1 j fname len short
                          (λ x lo up.
                            takes.others (direct_ptr inode k) x
                              (λ z.
                                clash (direct_ptr inode k) s.d_bitmap_blk s.d_start_blk z
                                  (dir.data_blocks k h old) dir.bitmap_first)
                              (omega arith))
                      ∙ absent_here k j h old hi,
                ),
          ))
        (λ used other len' no_f no_o ne short'.
          kept-new s d d1 _ ino 0 f_ino fname len inode' (clear_entries fresh 0 16) block b w f
            other len' short'
            (entry_matches_other block 0 fname other len len' no_f no_o ne f.matches) fresh r i refl
            takes refl (λ z. omega arith) nothing_i ptr
            (λ k h t. (
              λ z.
                  clash (direct_ptr inode k) (inode_block s ino) s.d_start_blk z
                    (dir.data_blocks k h t) dir.inode_first,
              dir.data_blocks k h t,
              dir.bitmap_first,
            ))
            used (omega arith))
        (Grows-new s d d1 _ ino inode' b block w
          (λ z. below s.d_bitmap_blk s.d_start_blk r dir.bitmap_first z) dir.bitmap_apart r i takes
          refl ptr)

  pub added :
      (free_block unused : ℕ)
      → free_block < 16384
      → disk_bit d s.d_bitmap_blk free_block ≡ 0
      → unused < 16
      → direct_ptr inode unused ≡ no_block
      → Added
  added free_block unused inside clear lt nothing =
      elim (first_in_blocks-FirstInBlocks d inode is_free 0 16) [
        | absent all e ↦ in_new_block free_block unused e inside clear lt nothing
        | present k j lo hi there ltj pass e ↦
            in_free_entry k j (omega arith) there ltj
              ((==_iff (load_half (bio_read d (direct_ptr inode k)).1 (256 * j + 2)) 0).0 pass) e
      ]
