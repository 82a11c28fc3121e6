-- ===== src/Difficulty/Tests.antt =====
-- Two blocks, the second of which is older than the first.
use graffiti_protocol.Base.{◌≡◌, ℕ, ◌*◌, ◌/◌, ◌≤◌, arith, List, [], ◌∷◌, none}
use graffiti_protocol.Config.{max_bits}
use graffiti_protocol.Ledger.{Block}
use graffiti_protocol.Compact.{bits_to_target}
use graffiti_protocol.Difficulty.{apply_diff_clamp, last_bits}
use graffiti_protocol.Difficulty.Bounds.{previous_target, apply_diff_clamp-range}

abbrev block_at : ℕ → ℕ → Block
block_at height timestamp = record {
  height = height;
  prev_block_hash = 0;
  merkle_root = 0;
  timestamp = timestamp;
  bits = max_bits;
  nonce = 0;
  transactions = [];
  chainwork = none;
  difficulty = 0;
}

abbrev blocks : List Block
blocks = block_at 1 500 ∷ block_at 2 400 ∷ []

room : previous_target blocks * 2 / 5 ≤ bits_to_target max_bits
unfolding last_bits bits_to_target
room = omega arith

apply_diff_clamp-range_example :
    (2 * apply_diff_clamp blocks 9 (bits_to_target max_bits) ≤ 3 * previous_target blocks)
    × (apply_diff_clamp blocks 9 (bits_to_target max_bits) ≤ bits_to_target max_bits)
    × (previous_target blocks * 2 / 5 ≤ apply_diff_clamp blocks 9 (bits_to_target max_bits))
    × (apply_diff_clamp blocks 0 (bits_to_target max_bits) ≡ previous_target blocks * 2 / 5)
apply_diff_clamp-range_example = apply_diff_clamp-range blocks 9 (bits_to_target max_bits) room
