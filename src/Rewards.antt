-- ===== src/Rewards.antt =====
-- The block subsidy: class RewardCalculator of src/tsarchain/consensus/rewards.py.
-- Heights are Python ints, so integers; the other numbers are never negative. The `while` loop runs
-- on fuel: each round takes at least one block off the remaining ones, so `height` rounds are enough.
mod Tests
pub mod Sums
pub mod Supply
use graffiti_protocol.Base.{
  ℕ, zero, suc, ◌+◌, ◌-◌, ◌*◌, ◌/◌, ◌^◌, min, Option, none, some, eqb, leb, if◌then◌else◌, ℤ, pos,
  negsuc,
}
use graffiti_protocol.Config.{max_supply, initial_reward, blocks_per_halving, genesis_reward_amount}

unfoldable pub scheduled_reward : ℤ → ℕ
scheduled_reward (negsuc _) = 0
scheduled_reward (pos height) =
    if eqb height 0
    then genesis_reward_amount
    else (let epoch = height / blocks_per_halving in
        if leb 64 epoch then 0 else initial_reward / 2 ^ epoch)

-- The loop of `cumulative_supply_until` over `total`, `remaining_blocks` and `current_h`.
unfoldable pub supply_loop : ℕ → ℕ → ℕ → ℕ → Option ℕ
supply_loop zero total remaining h = none
supply_loop (suc fuel) total remaining h =
    let reward = scheduled_reward (pos h) in
    let next_epoch_h = (h / blocks_per_halving + 1) * blocks_per_halving in
    let blocks = min remaining (next_epoch_h - h) in
    let total' = total + blocks * reward in
    let rest = supply_loop fuel total' (remaining - blocks) (h + blocks) in
    if eqb remaining 0
    then some (min total max_supply)
    else (if eqb reward 0
        then some (min total max_supply)
        else (if leb max_supply total' then some max_supply else rest))

unfoldable pub cumulative_supply_until : ℤ → Option ℕ
cumulative_supply_until (negsuc _) = some 0
cumulative_supply_until (pos height) =
    let total = scheduled_reward (pos 0) in
    if eqb height 0
    then some 0
    else (if eqb height 1
        then some (min total max_supply)
        else supply_loop height total (height - 1) 1)

-- `none` is a loop that did not end.
unfoldable pub get_block_reward : ℤ → Option ℕ
get_block_reward height =
    let base = scheduled_reward height in
    if eqb base 0 then some 0 else (elim (cumulative_supply_until height) [
      | none ↦ none
      | some minted_before ↦ some (min base (max_supply - minted_before))
    ])
