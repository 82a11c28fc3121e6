-- ===== src/Rewards/Supply.antt =====
-- The loop of `cumulative_supply_until`, which goes from epoch to epoch, and the rewards of
-- `get_block_reward`, both of src/tsarchain/consensus/rewards.py.
use graffiti_protocol.Base.{
  ℕ, zero, suc, ◌+◌, ◌-◌, ◌*◌, ◌/◌, ◌≤◌, ◌<◌, ◌≡◌, arith, pos, refl, min, some, none, Option, ap,
}
use graffiti_protocol.Config.{blocks_per_halving, max_supply}
use graffiti_protocol.Rewards.{
  scheduled_reward, supply_loop, cumulative_supply_until, get_block_reward,
}
use graffiti_protocol.Rewards.Sums.{
  scheduled_sum, scheduled_sum-epoch, scheduled_sum-split, scheduled_sum_ended, scheduled_sum_zero,
  scheduled_sum_next, scheduled_sum_one, scheduled_sum_first,
}

module _ (h r : ℕ) where
  abbrev epoch_left : ℕ
  epoch_left = (h / blocks_per_halving + 1) * blocks_per_halving - h

  round_sum :
      (b : ℕ)
      → 0 < h
      → b ≤ r
      → b ≤ epoch_left
      → scheduled_sum h r ≡ b * scheduled_reward (pos h) + scheduled_sum (h + b) (r - b)
  round_sum b p q l =
      let e : scheduled_sum h r ≡ scheduled_sum h (b + (r - b)) =
        ap (scheduled_sum h) (omega arith) in
      omega (arith, e, scheduled_sum-split h b (r - b), scheduled_sum-epoch h b p (omega arith))

-- With fuel above the remaining blocks the loop ends, with the capped sum.
supply_loop-scheduled_sum :
    (fuel total remaining h : ℕ)
    → 0 < h
    → remaining < fuel
    → supply_loop fuel total remaining h ≡ some (min (total + scheduled_sum h remaining) max_supply)
unfolding supply_loop
supply_loop-scheduled_sum zero t r h p f = elim f [ ]
supply_loop-scheduled_sum (suc fuel) t r h p f =
    let b = min r ((h / blocks_per_halving + 1) * blocks_per_halving - h) in
    let t' = t + b * scheduled_reward (pos h) in
    ground (
      arith,
      scheduled_sum_zero h,
      scheduled_sum_ended h r p,
      round_sum h r b p (omega arith) (omega arith),
      supply_loop-scheduled_sum fuel t' (r - b) (h + b) (omega arith),
    )

cumulative_supply_until-scheduled_sum :
    (height : ℕ)
    → cumulative_supply_until (pos height) ≡ some (min (scheduled_sum 0 height) max_supply)
unfolding cumulative_supply_until
cumulative_supply_until-scheduled_sum height = ground (
  arith,
  scheduled_sum_zero 0,
  scheduled_sum_one 0,
  scheduled_sum_first (height - 1),
  supply_loop-scheduled_sum height (scheduled_reward (pos 0)) (height - 1) 1 (omega arith),
)

-- What `get_block_reward` pays for the blocks below a height, added up.
unfoldable pub rewards_paid : ℕ → Option ℕ
rewards_paid zero = some 0
rewards_paid (suc h) = elim (rewards_paid h) [
  | none ↦ none
  | some paid ↦ elim (get_block_reward (pos h)) [ none ↦ none | some r ↦ some (paid + r) ]
]

get_block_reward-scheduled_sum :
    (h : ℕ)
    → get_block_reward (pos h)
      ≡ some (min (scheduled_reward (pos h)) (max_supply - min (scheduled_sum 0 h) max_supply))
unfolding get_block_reward
get_block_reward-scheduled_sum h = ground (arith, cumulative_supply_until-scheduled_sum h)

rewards_paid-scheduled_sum : (h : ℕ) → rewards_paid h ≡ some (min (scheduled_sum 0 h) max_supply)
unfolding rewards_paid
rewards_paid-scheduled_sum zero = ground (arith, scheduled_sum_zero 0)
rewards_paid-scheduled_sum (suc h) =
    ground
      (arith, rewards_paid-scheduled_sum h, get_block_reward-scheduled_sum h, scheduled_sum_next h)

-- At every height the loops end, and the rewards that `get_block_reward` pays below it add up to
-- exactly `cumulative_supply_until`: the plain sum of the schedule, capped at the maximum supply.
pub rewards_paid-cumulative_supply :
    (height : ℕ)
    → (supply : ℕ) × (rewards_paid height ≡ some supply)
      × (cumulative_supply_until (pos height) ≡ some supply)
      × (supply ≡ min (scheduled_sum 0 height) max_supply)
      × (supply ≤ max_supply)
rewards_paid-cumulative_supply height = (
  min (scheduled_sum 0 height) max_supply,
  rewards_paid-scheduled_sum height,
  cumulative_supply_until-scheduled_sum height,
  refl,
  omega arith,
)
