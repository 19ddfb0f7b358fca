-- ===== src/Rufs/Fuse/Mounted.antt =====
-- The root directory behind `rufs_init` of project4/rufs.c without a disk file.
use cs.Prelude.{
  ℕ, zero, suc, ◌<◌, ◌≡◌, refl, sym, ap, ◌∙◌, ◌≢◌, true, false, Option, none, some, List, [], ◌∷◌,
  arith, negsuc, ok, length,
}
use cs.Memory.{Mem}
use cs.Rufs.Disk.{Disk, unopened, dev_open, bio_read}
use cs.Rufs.Alloc.{Superblock}
use cs.Rufs.Inodes.{readi}
use cs.Rufs.Directory.{load_half, dir_find, dir_add}
use cs.Rufs.Directory.Added.{dir_find-HasEntry}
use cs.Rufs.Directory.Search.{no_such, finds, dir_find-Finds}
use cs.Rufs.Directory.WellFormed.{IsDirectory}
use cs.Rufs.Directory.Keeping.{BlocksUsed}
use cs.Rufs.Directory.Others.{NoZero, nothing, more, SameFound, neither, both, dir_find-KeptAt}
use cs.Rufs.Directory.Inserted.{adds, added}
use cs.Rufs.Mkfs.{Surroundings, made_super, rufs_mkfs}
use cs.Rufs.Mkfs.Ready.{IsFormatted, rufs_mkfs-IsFormatted}
use cs.Rufs.Fuse.Start.{super_of, opened_or_made, rufs_init}

-- The entries "." and "..".
abbrev pub curr_dir : List ℕ
curr_dir = 46 ∷ []

abbrev pub parent_dir : List ℕ
parent_dir = 46 ∷ 46 ∷ []

-- The directory has the name, with the number.
abbrev pub HasName : Superblock → Disk → ℕ → List ℕ → ℕ → Type 0
HasName s d ino fname n =
    (e : Mem) × (dir_find s d ino fname (length fname) ≡ (0, some e)) × (load_half e 0 ≡ n)

-- Results that agree are both that nothing was found, or of the same number.
code : ℕ × Option Mem → ℕ
code r = r.0

bytes_of : ℕ × Option Mem → Mem
bytes_of (_, none) = λ _. 0
bytes_of (_, some e) = e

SameFound-missing : (r r' : ℕ × Option Mem) → SameFound r r' → r.0 ≡ 2 → r'.0 ≡ 2
unfolding code
SameFound-missing r r' (neither p q) e = ap code q
SameFound-missing r r' (both m m' p q same) e = absurd (clash r.0 (ap code p) e)
  where
    clash : (n : ℕ) → n ≡ 0 → n ≢ 2
    clash n e z = omega arith

SameFound-number :
    (r r' : ℕ × Option Mem) (e : Mem) (n : ℕ)
    → SameFound r r'
    → r ≡ (0, some e)
    → load_half e 0 ≡ n
    → (e' : Mem) × (r' ≡ (0, some e')) × (load_half e' 0 ≡ n)
unfolding code bytes_of load_half
SameFound-number r r' e n (neither p q) found number =
    absurd (clash r.0 (ap code p) (ap code found))
  where
    clash : (n : ℕ) → n ≡ 2 → n ≢ 0
    clash n e z = omega arith
SameFound-number r r' e n (both m m' p q same) found number =
    let f : m ≡ e = sym (ap bytes_of p) ∙ ap bytes_of found in
    (m', q, rw (same 0 (omega arith), same 1 (omega arith)) (rw f number))

-- Nothing is found in a directory without a block.
no_names :
    (s : Superblock) (d : Disk) (fname : List ℕ) (len : ℕ)
    → IsFormatted s d
    → (dir_find s d 1 fname len).0 ≡ 2
unfolding code
no_names s d fname len fmt = elim (dir_find-Finds s d 1 fname len) [
  | no_such all e ↦ ap code e
  | finds k j lt there lt' pass e ↦ absurd (there (fmt.no_blocks k lt))
]

not_zero : (x : ℕ) → x ≡ 2 → x ≢ 0
not_zero x e z = omega arith

-- The two entries are added.
data Rooted (s : Superblock) (d : Disk) (entries : ℕ → Mem) : Type 0 where
  rooted :
      (one two : Disk)
      → dir_add s d (entries 0) (readi s d 1) 1 curr_dir 1 ≡ ok (0, one)
      → dir_add s one (entries 1) (readi s one 1) 1 parent_dir 2 ≡ ok (0, two)
      → IsDirectory s two 1
      → HasName s two 1 curr_dir 1
      → HasName s two 1 parent_dir 1
      → Rooted s d entries

c_dot : NoZero curr_dir
c_dot = more (λ z. omega arith) nothing

c_dots : NoZero parent_dir
c_dots = more (λ z. omega arith) (more (λ z. omega arith) nothing)

differ : parent_dir ≢ curr_dir
differ z = two_one (length parent_dir) refl (ap length z)
  where
    two_one : (n : ℕ) → n ≡ 2 → n ≢ 1
    two_one n e z = omega arith

formatted-Rooted :
    (s : Superblock) (d : Disk) (entries : ℕ → Mem) → IsFormatted s d → Rooted s d entries
formatted-Rooted s d entries fmt =
    let none_used : BlocksUsed s d 1 = λ k lt there. absurd (there (fmt.no_blocks k lt)) in
    elim (added s d (entries 0) 1 1 curr_dir 1 fmt.root
      (not_zero (dir_find s d 1 curr_dir 1).0 (no_names s d curr_dir 1 fmt)) (omega arith)
      (omega arith) (omega arith) 0 0 (omega arith) (fmt.data_bits 0 (omega arith)) (omega arith)
      (fmt.no_blocks 0 (omega arith))) [
        | adds one b k j run still h keeps grows ↦
            let used = grows.used none_used in
            let (e, found, number) = dir_find-HasEntry s one 1 1 curr_dir 1 b k j h in
            let (u, ltu, u_off) = another grows.spot in
            let (f, ltf, f_off) = another grows.taken in
            let missing =
              SameFound-missing (dir_find s d 1 parent_dir 2) (dir_find s one 1 parent_dir 2)
                (dir_find-KeptAt s d one 1 parent_dir 2
                  (keeps none_used parent_dir 2 c_dot c_dots differ (omega arith)))
                (no_names s d parent_dir 2 fmt) in
            elim (added s one (entries 1) 1 1 parent_dir 2 still
              (not_zero (dir_find s one 1 parent_dir 2).0 missing) (omega arith) (omega arith)
              (omega arith) f u (omega arith)
              (grows.bits f (omega arith) f_off ∙ fmt.data_bits f (omega arith)) (omega arith)
              (grows.pointers u (omega arith) u_off ∙ fmt.no_blocks u (omega arith))) [
                | adds two b' k' j' run' still' h' keeps' grows' ↦
                    rooted one two run run' still'
                      (SameFound-number (dir_find s one 1 curr_dir 1) (dir_find s two 1 curr_dir 1)
                        e 1
                        (dir_find-KeptAt s one two 1 curr_dir 1
                          (keeps' used curr_dir 1 c_dots c_dot (λ z. differ (sym z)) (omega arith)))
                        found number)
                      (dir_find-HasEntry s two 1 1 parent_dir 2 b' k' j' h')
              ]
      ]
  where
    another : (n : ℕ) → (m : ℕ) × (m < 2) × (m ≢ n)
    another zero = (1, omega arith, λ z. omega arith)
    another (suc n) = (0, omega arith, λ z. omega arith)

mounts :
    (w : Surroundings) (entries : ℕ → Mem) (s : Superblock) (d d1 one two : Disk)
    → opened_or_made false w d ≡ ok d1
    → super_of (bio_read d1 0).1 ≡ s
    → dir_add s d1 (entries 0) (readi s d1 1) 1 curr_dir 1 ≡ ok (0, one)
    → dir_add s one (entries 1) (readi s one 1) 1 parent_dir 2 ≡ ok (0, two)
    → rufs_init false w entries d ≡ ok (s, two)
unfolding rufs_init
mounts w entries s d d1 one two p q r t = rw (rufs_init, p) (rw q (rw r (rw t refl)))

dev_open-unopened : (d : Disk) → d.diskfile ≡ unopened → dev_open false d ≡ (negsuc 0, d)
unfolding dev_open
dev_open-unopened d un = rw un refl

made :
    (w : Surroundings) (d d1 : Disk)
    → d.diskfile ≡ unopened
    → rufs_mkfs w d ≡ ok (made_super, d1)
    → opened_or_made false w d ≡ ok d1
unfolding opened_or_made
made w d d1 un run = rw (opened_or_made, dev_open-unopened d un) (rw run refl)

-- Where the disk file cannot be opened and `rufs_mkfs` can make one, `rufs_init` ends well: it leaves
-- the superblock of `rufs_mkfs` and a root directory that is well-formed, and in which "." and ".."
-- are found, both with the number of the root.
pub rufs_init-root :
    (w : Surroundings) (entries : ℕ → Mem) (d : Disk)
    → d.diskfile ≡ unopened
    → w.opens ≡ true
    → ((i : ℕ) → w.fresh_inodes i < 256)
    → ((i : ℕ) → w.fresh_data i < 256)
    → (d' : Disk) × (rufs_init false w entries d ≡ ok (made_super, d'))
      × IsDirectory made_super d' 1
      × HasName made_super d' 1 curr_dir 1
      × HasName made_super d' 1 parent_dir 1
rufs_init-root w entries d un op inodes whole =
    let (d1, run, fmt) = rufs_mkfs-IsFormatted w d un op inodes whole in
    elim (formatted-Rooted made_super d1 entries fmt) [
      | rooted one two p q dir dot dots ↦ (
        two,
        mounts w entries made_super d d1 one two (made w d d1 un run) fmt.superblock p q,
        dir,
        dot,
        dots,
      )
    ]
