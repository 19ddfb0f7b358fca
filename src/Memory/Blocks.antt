-- ===== src/Memory/Blocks.antt =====
-- What `memset` and `memcpy` do at an address, inside and outside of their block.
use cs.Memory.{Mem, memset, memcpy}
use cs.Prelude.{ℕ, ◌+◌, ◌-◌, ◌≤◌, ◌<◌, ◌≡◌, ◌⊎◌, arith}

pub memset-outside : (m : Mem) (p c n x : ℕ) → (x < p) ⊎ (p + n ≤ x) → memset m p c n x ≡ m x
unfolding memset
memset-outside m p c n x h = ground arith

pub memset-inside : (m : Mem) (p c n x : ℕ) → p ≤ x → x < p + n → memset m p c n x ≡ c
unfolding memset
memset-inside m p c n x h k = ground arith

pub memcpy-outside :
    (m : Mem) (dst src n x : ℕ) → (x < dst) ⊎ (dst + n ≤ x) → memcpy m dst src n x ≡ m x
unfolding memcpy
memcpy-outside m dst src n x h = ground arith

pub memcpy-inside : (m : Mem) (dst src n k : ℕ) → k < n → memcpy m dst src n (dst + k) ≡ m (src + k)
unfolding memcpy
memcpy-inside m dst src n k h = let e : dst + k - dst ≡ k = omega arith in ground arith
