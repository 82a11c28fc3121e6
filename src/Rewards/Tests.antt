-- ===== src/Rewards/Tests.antt =====
-- The schedule at its first heights.
use graffiti_protocol.Base.{◌≡◌, ◌≤◌, ℕ, min, some, pos}
use graffiti_protocol.Config.{max_supply}
use graffiti_protocol.Rewards.{cumulative_supply_until}
use graffiti_protocol.Rewards.Sums.{scheduled_sum}
use graffiti_protocol.Rewards.Supply.{rewards_paid, rewards_paid-cumulative_supply}

rewards_paid-cumulative_supply_example :
    (supply : ℕ) × (rewards_paid 235001 ≡ some supply)
    × (cumulative_supply_until (pos 235001) ≡ some supply)
    × (supply ≡ min (scheduled_sum 0 235001) max_supply)
    × (supply ≤ max_supply)
rewards_paid-cumulative_supply_example = rewards_paid-cumulative_supply 235001
