-- ===== src/Difficulty/Bounds.antt =====
-- The ranges of the steps of `_expected_bits_on_prefix` of src/tsarchain/consensus/difficulty.py.
use native.Mathlib.Nat.{add-mul, le-mul_of_pos_right, mul-le-mul_left}
use graffiti_protocol.Base.{ℕ, ◌+◌, ◌*◌, ◌/◌, ◌≤◌, ◌≡◌, arith, max, List, [], ◌∷◌, length}
use graffiti_protocol.Ledger.{Block}
use graffiti_protocol.Compact.{bits_to_target}
use graffiti_protocol.Difficulty.{last_bits, apply_diff_clamp}
use graffiti_protocol.Difficulty.Window.{solve_time, lwma_step, block_difficulty}

abbrev pub previous_target : List Block → ℕ
previous_target prefix = max 1 (bits_to_target (last_bits prefix))

solve_time-range : (t a b : ℕ) → 1 ≤ t → (1 ≤ solve_time t a b) × (solve_time t a b ≤ 6 * t)
unfolding solve_time
solve_time-range t a b h = ground arith

-- `i + (i + 1) + …`, the weights of `n` blocks from `i` on.
abbrev weights : ℕ → List Block → ℕ
weights i [] = 0
weights i (_ ∷ bs) = i + weights (i + 1) bs

-- Over a window, the weighted sum of the solve times lies between the sum of the weights and 6 t times
-- that, whatever the timestamps are, and every block counts for a difficulty of 1 at least.
lwma_step-range :
    (t i prev_ts : ℕ) (bs : List Block)
    → 1 ≤ t
    → (weights i bs ≤ (lwma_step t i prev_ts bs).0)
      × ((lwma_step t i prev_ts bs).0 ≤ weights i bs * (6 * t))
      × (length bs ≤ (lwma_step t i prev_ts bs).1)
unfolding lwma_step block_difficulty
lwma_step-range t i prev_ts [] h = ground arith
lwma_step-range t i prev_ts (b ∷ bs) h =
    let st = solve_time t prev_ts b.timestamp in
    let (low, high) = solve_time-range t prev_ts b.timestamp h in
    let (low', high', count) = lwma_step-range t (i + 1) b.timestamp bs h in
    (
      omega (arith, low', le-mul_of_pos_right {m = st} i (omega (arith, low))),
      omega (arith, high', mul-le-mul_left i high, add-mul i (weights (i + 1) bs) (6 * t)),
      ground (arith, count),
    )

-- The clamped target is no more than half above the target of the last block, and no more than the
-- easiest one; and if the easiest one allows it, it is no less than two fifths of the last one, which a
-- target of 0 comes to. It is the target, not the difficulty, that is bounded so.
pub apply_diff_clamp-range :
    (prefix : List Block) (next_target max_target : ℕ)
    → previous_target prefix * 2 / 5 ≤ max_target
    → (2 * apply_diff_clamp prefix next_target max_target ≤ 3 * previous_target prefix)
      × (apply_diff_clamp prefix next_target max_target ≤ max_target)
      × (previous_target prefix * 2 / 5 ≤ apply_diff_clamp prefix next_target max_target)
      × (apply_diff_clamp prefix 0 max_target ≡ previous_target prefix * 2 / 5)
unfolding apply_diff_clamp
apply_diff_clamp-range prefix next_target max_target h = ground arith
