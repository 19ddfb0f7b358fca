-- ===== src/Vm/Access.antt =====
-- `put_value`, `get_value` and `mat_mult` of project3/code/my_vm.c.
pub mod RoundTrip
pub mod Spill
pub mod Fresh
use cs.Prelude.{ℕ, zero, suc, ◌+◌, ◌-◌, ◌*◌, ◌%◌, ◌^◌, Outcome, ok, ◌>>=◌}
use cs.Memory.{load_word, store_word, memcpy}
use cs.Vm.State.{Vm, Host, pgsize, pages_needed, min}
use cs.Vm.Tables.{translate}

-- The loop of `put_value`, with `n` rounds left: `i` is added to `va` as a number of bytes.
unfoldable pub put_pages : Host → Vm → ℕ → ℕ → ℕ → ℕ → ℕ → Outcome Vm
put_pages host vm va i val left zero = ok vm
put_pages host vm va i val left (suc n) = do
  (physical, vm') ← translate host vm ((va + i) % 2 ^ 32)
  let copied = record vm' { mem = memcpy vm'.mem physical val (min left pgsize) }
  put_pages host copied va (i + 1) (val + pgsize) (left - pgsize) n

unfoldable pub put_value : Host → Vm → ℕ → ℕ → ℕ → Outcome Vm
put_value host vm va val size = pages_needed size >>= λ n. put_pages host vm va 0 val size n

unfoldable pub get_pages : Host → Vm → ℕ → ℕ → ℕ → ℕ → ℕ → Outcome Vm
get_pages host vm va i val left zero = ok vm
get_pages host vm va i val left (suc n) = do
  (physical, vm') ← translate host vm ((va + i) % 2 ^ 32)
  let copied = record vm' { mem = memcpy vm'.mem val physical (min left pgsize) }
  get_pages host copied va (i + 1) (val + pgsize) (left - pgsize) n

unfoldable pub get_value : Host → Vm → ℕ → ℕ → ℕ → Outcome Vm
get_value host vm va val size = pages_needed size >>= λ n. get_pages host vm va 0 val size n

-- The address of the element in row `r` and column `c` of a matrix of `int`.
abbrev pub element : ℕ → ℕ → ℕ → ℕ → ℕ
element mat size r c = (mat + r * size * 4 + c * 4) % 2 ^ 32

-- The inner loop: `c += a * b` over `n` values of `k`; `a`, `b` and `c` are locals of the caller.
unfoldable pub dot : Host → Vm → ℕ → ℕ → ℕ → ℕ → ℕ → ℕ → ℕ → ℕ → Outcome (ℕ × Vm)
dot host vm mat1 mat2 size i j k c zero = ok (c, vm)
dot host vm mat1 mat2 size i j k c (suc n) = do
  vm' ← get_value host vm (element mat1 size i k) host.local_a 4
  vm'' ← get_value host vm' (element mat2 size k j) host.local_b 4
  let a = load_word vm''.mem host.local_a
  let b = load_word vm''.mem host.local_b
  dot host vm'' mat1 mat2 size i j (k + 1) ((c + a * b) % 2 ^ 32) n

unfoldable pub mat_row : Host → Vm → ℕ → ℕ → ℕ → ℕ → ℕ → ℕ → ℕ → Outcome Vm
mat_row host vm mat1 mat2 size answer i j zero = ok vm
mat_row host vm mat1 mat2 size answer i j (suc n) = do
  (c, vm') ← dot host vm mat1 mat2 size i j 0 0 size
  let stored = record vm' { mem = store_word vm'.mem host.local_c c }
  vm'' ← put_value host stored (element answer size i j) host.local_c 4
  mat_row host vm'' mat1 mat2 size answer i (j + 1) n

unfoldable pub mat_rows : Host → Vm → ℕ → ℕ → ℕ → ℕ → ℕ → ℕ → Outcome Vm
mat_rows host vm mat1 mat2 size answer i zero = ok vm
mat_rows host vm mat1 mat2 size answer i (suc n) =
    mat_row host vm mat1 mat2 size answer i 0 size >>= λ vm'.
    mat_rows host vm' mat1 mat2 size answer (i + 1) n

unfoldable pub mat_mult : Host → Vm → ℕ → ℕ → ℕ → ℕ → Outcome Vm
mat_mult host vm mat1 mat2 size answer = mat_rows host vm mat1 mat2 size answer 0 size
