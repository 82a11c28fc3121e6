-- ===== src/Difficulty.antt =====
-- The difficulty rules: class DifficultyManager of src/tsarchain/consensus/difficulty.py.
-- A block's bits and timestamp are unsigned integers, as its header encodes them, so the branches
-- for a missing value are not there. The differences of two timestamps are integers. A comparison of
-- Python Fractions is written with both sides multiplied out: the ratios of config.py are 1.5, 0.4,
-- 3.0 and 2.0, that is 3/2, 2/5, 3/1 and 2/1.
mod Tests
pub mod Window
pub mod Work
pub mod Bounds
unfoldable pub use Window.{
  insert_sorted, sorted, median_time_past_of, solve_time, lwma_step, lwma_sums,
}
use graffiti_protocol.Base.{
  ℕ, ◌+◌, ◌-◌, ◌*◌, ◌/◌, min, max, List, [], ◌∷◌, map, Option, none, some, length, take, last_n,
  last?, sum_by, eqb, ltb, leb, if◌then◌else◌,
}
use graffiti_protocol.Config.{max_bits, target_block_time, lwma_window, eda_window}
use graffiti_protocol.Ledger.{Block}
use graffiti_protocol.Compact.{bits_to_target, target_to_bits, difficulty_to_target}

-- `window = prefix[-n:]` and the three averages; `prefix` has two blocks at least.
unfoldable pub calculate_lwma_target : List Block → ℕ → ℕ → ℕ
unfolding lwma_sums
calculate_lwma_target prefix n t =
    let k = n * (n - 1) / 2 in
    let sums = lwma_sums t (last_n n prefix) in
    let avg_diff = max 1 (sums.1 / (n - 1)) in
    let lwma_st = max 1 (sums.0 / k) in
    let next_diff = max 1 (avg_diff * t / lwma_st) in difficulty_to_target next_diff

-- `prefix[-1].bits`, or the easiest bits if there is no block.
unfoldable pub last_bits : List Block → ℕ
last_bits prefix = elim (last? prefix) [ none ↦ max_bits | some b ↦ b.bits ]

unfoldable pub apply_diff_clamp : List Block → ℕ → ℕ → ℕ
unfolding last_bits
apply_diff_clamp prefix next_target max_target =
    let prev_target = max 1 (bits_to_target (last_bits prefix)) in
    let clamped =
      if ltb (3 * prev_target) (2 * next_target)
      then prev_target * 3 / 2
      else (if ltb (5 * next_target) (2 * prev_target) then prev_target * 2 / 5 else next_target) in
    min clamped max_target

-- The intervals between the timestamps of neighbours, each at least 1.
unfoldable pub eda_intervals : List ℕ → List ℕ
eda_intervals [] = []
eda_intervals (t ∷ []) = []
eda_intervals (t ∷ u ∷ ts) = max 1 (u - t) ∷ eda_intervals (u ∷ ts)

unfoldable pub apply_eda : List Block → ℕ → ℕ → ℕ → ℕ
unfolding last_bits
apply_eda prefix next_target max_target t =
    let m = min eda_window (length prefix) in
    let intervals = eda_intervals (map (λ b. b.timestamp) (last_n m prefix)) in
    if ltb m 2
    then next_target
    else (if ltb (3 * t * length intervals) (sum_by (λ dt. dt) intervals)
        then min (bits_to_target (last_bits prefix) * 2) max_target
        else next_target)

-- The target that `_expected_bits_on_prefix` encodes, for a prefix of two blocks or more.
unfoldable pub expected_target : List Block → ℕ
expected_target prefix =
    let t = target_block_time in
    let n = min lwma_window (length prefix) in
    let max_target = bits_to_target max_bits in
    let clamped = apply_diff_clamp prefix (calculate_lwma_target prefix n t) max_target in
    min (apply_eda prefix clamped max_target t) max_target

unfoldable pub expected_bits_on_prefix : List Block → ℕ → ℕ
expected_bits_on_prefix [] next_height = max_bits
expected_bits_on_prefix (b ∷ []) next_height = if eqb next_height 0 then max_bits else b.bits
expected_bits_on_prefix (b ∷ c ∷ bs) next_height =
    if eqb next_height 0 then max_bits else target_to_bits (expected_target (b ∷ c ∷ bs))

unfoldable pub calculate_expected_bits : List Block → ℕ → ℕ
calculate_expected_bits chain next_height =
    if eqb next_height 0
    then max_bits
    else expected_bits_on_prefix (take next_height chain) next_height
