-- ===== src/Memory/Words.antt =====
-- Words in memory: reads after writes.
use cs.Memory.{Mem, load_word, store_word}
use cs.Prelude.{ℕ, ◌+◌, ◌^◌, ◌≤◌, ◌<◌, ◌≡◌, ◌⊎◌, arith}

pub store-other : (m : Mem) (a v x : ℕ) → (x < a) ⊎ (a + 4 ≤ x) → store_word m a v x ≡ m x
unfolding store_word
store-other m a v x h = ground arith

pub load-store : (m : Mem) (a v : ℕ) → v < 2 ^ 32 → load_word (store_word m a v) a ≡ v
unfolding load_word store_word
load-store m a v h = ground arith

pub load-store_apart :
    (m : Mem) (a v b : ℕ)
    → (b + 4 ≤ a) ⊎ (a + 4 ≤ b)
    → load_word (store_word m a v) b ≡ load_word m b
unfolding load_word
load-store_apart m a v b h = ground (
  arith,
  store-other m a v b,
  store-other m a v (b + 1),
  store-other m a v (b + 2),
  store-other m a v (b + 3),
)

-- Two memories that agree on four bytes hold the same word there.
pub load-ext :
    (m n : Mem) (a : ℕ) → ((x : ℕ) → a ≤ x → x < a + 4 → m x ≡ n x) → load_word m a ≡ load_word n a
unfolding load_word
load-ext m n a h = ground (arith, h a, h (a + 1), h (a + 2), h (a + 3))

pub load-lt : (m : Mem) (a : ℕ) → ((x : ℕ) → m x < 256) → load_word m a < 2 ^ 32
unfolding load_word
load-lt m a h = omega (arith, h a, h (a + 1), h (a + 2), h (a + 3))
