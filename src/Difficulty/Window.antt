-- ===== src/Difficulty/Window.antt =====
-- The windows of blocks that the median time past and the weighted average read.
use graffiti_protocol.Base.{
  ℕ, ◌+◌, ◌*◌, ◌/◌, max, List, [], ◌∷◌, map, none, some, length, get_elem?, last_n, leb,
  if◌then◌else◌, pos, sub_ℕ, ltb_ℤ, to_nonneg,
}
use graffiti_protocol.Ledger.{Block}
use graffiti_protocol.Compact.{bits_to_target, target_to_difficulty}

-- Python's `sorted` on integers.
unfoldable pub insert_sorted : ℕ → List ℕ → List ℕ
insert_sorted x [] = x ∷ []
insert_sorted x (y ∷ ys) = if leb x y then x ∷ y ∷ ys else y ∷ insert_sorted x ys

unfoldable pub sorted : List ℕ → List ℕ
unfolding insert_sorted
sorted [] = []
sorted (x ∷ xs) = insert_sorted x (sorted xs)

-- `times[len(times) // 2]` over the last `k` blocks; 0 on the empty chain.
unfoldable pub median_time_past_of : ℕ → List Block → ℕ
unfolding sorted
median_time_past_of k blocks =
    let times = sorted (map (λ b. b.timestamp) (last_n k blocks)) in
    elim (get_elem? times (length times / 2)) [ none ↦ 0 | some m ↦ m ]

-- The three tests that clamp `st`, in the order of the source.
unfoldable pub solve_time : ℕ → ℕ → ℕ → ℕ
solve_time t prev_ts ts =
    let st = sub_ℕ ts prev_ts in
    let low = sub_ℕ 0 (6 * t) in
    let high = pos (6 * t) in
    let st' = if ltb_ℤ st low then low else st in
    let st'' = if ltb_ℤ high st' then high else st' in
    if ltb_ℤ st'' (pos 1) then 1 else to_nonneg st''

unfoldable pub block_difficulty : Block → ℕ
block_difficulty b = max 1 (target_to_difficulty (bits_to_target b.bits))

-- The loop over `window[i:]`: `sum_wst` and `sum_diff` of the rounds from `i` on.
unfoldable pub lwma_step : ℕ → ℕ → ℕ → List Block → ℕ × ℕ
unfolding solve_time block_difficulty
lwma_step t i prev_ts [] = (0, 0)
lwma_step t i prev_ts (b ∷ bs) =
    let rest = lwma_step t (i + 1) b.timestamp bs in
    (i * solve_time t prev_ts b.timestamp + rest.0, block_difficulty b + rest.1)

unfoldable pub lwma_sums : ℕ → List Block → ℕ × ℕ
unfolding lwma_step
lwma_sums t [] = (0, 0)
lwma_sums t (b ∷ bs) = lwma_step t 1 b.timestamp bs
