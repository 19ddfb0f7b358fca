-- ===== src/Worker/Mlfq/Levels.antt =====
-- The levels that `changePriority` gives.
use cs.Prelude.{ℕ, ◌+◌, ◌*◌, ◌≤◌, ◌<◌, ◌≡◌, ◌↔◌, ◌⊎◌, arith}
use cs.Worker.Mlfq.{changed_priority}

-- From a level below 4 the new level is below 4 too, and it is the old one or the next. It is the
-- next just when the old one is not the last and the time that has passed is at least two
-- slices for each level up to the old one.
pub changed_priority_lem :
    (elapsed p : ℕ)
    → p < 4
    → (changed_priority elapsed p < 4)
      × ((changed_priority elapsed p ≡ p) ⊎ (changed_priority elapsed p ≡ p + 1))
      × ((changed_priority elapsed p ≡ p + 1) ↔ ((p < 3) × (2 * (p + 1) * 250000 ≤ elapsed)))
unfolding changed_priority
changed_priority_lem elapsed p lt =
    (ground arith, ground arith, ((λ e. ground arith), λ e. ground arith))
