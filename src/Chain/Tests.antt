-- ===== src/Chain/Tests.antt =====
-- A chain of four blocks, the last of which spends an output of the genesis block, and the results
-- on it.
use graffiti_protocol.Base.{
  ℕ, ◌+◌, ◌≡◌, ◌≤◌, ◌<◌, ◌⊎◌, min, arith, refl, Bool, true, false, List, [], ◌∷◌, ◌++◌, none, some,
  length, all,
}
use graffiti_protocol.Config.{max_bits, max_supply, genesis_reward_amount, initial_reward}
use graffiti_protocol.Ledger.{Tx, TxOut, Block, is_opreturn}
use graffiti_protocol.Rewards.{scheduled_reward}
use graffiti_protocol.Compact.{
  bits_to_target, target_to_bits, large_target_to_bits, bit_length_from, target_to_difficulty,
  difficulty_to_target,
}
use graffiti_protocol.Difficulty.{
  expected_bits_on_prefix, expected_target, apply_eda, eda_intervals, apply_diff_clamp, last_bits,
  calculate_lwma_target, lwma_sums, lwma_step, solve_time, median_time_past_of, sorted,
  insert_sorted,
}
use graffiti_protocol.Difficulty.Window.{block_difficulty}
use graffiti_protocol.Chain.Native.{Native, pow_ok, merkle_ok, txids_ok, genesis_lock_ok}
use graffiti_protocol.Chain.Spend.{
  Coin, Coins, spend_txs, spend_inputs, is_immature, remove_spent, add_txs, add_outputs,
}
use graffiti_protocol.Chain.Validate.{
  connect_chain, validate_subsequent_blocks, validate_genesis_block, genesis_supply, header_ok,
  validate_block_timestamp, connect_txs, one_coinbase, genesis_coins, genesis_outputs,
  validate_complete_chain,
}
use graffiti_protocol.Chain.Spend.{coins_value}
use graffiti_protocol.Rewards.Sums.{scheduled_sum}
use graffiti_protocol.Difficulty.Work.{work_from_bits, chainwork_from, compute_chainwork_for_chain}
use graffiti_protocol.Chain.Supply.{connect_chain-backed}
use graffiti_protocol.Chain.Links.{is_chain_consistent, validate_complete_chain-consistent}
use graffiti_protocol.Chain.Inputs.{push_txs, AreSpendable, spend_txs-AreSpendable}
use graffiti_protocol.Chain.Reorg.{
  ChainState, accepted, replace_with, replacement_rejection, is_deep_reorg, common_ancestor_height,
  index_of, loses_tie, swap_tip_if_better, is_valid_tip_candidate, beats_tip,
}
use graffiti_protocol.Chain.Reorg.Better.{
  work_of, IsBetter, IsShallow, replace_with-IsBetter, swap_tip_if_better-length,
}

abbrev native : Native
native = record {
  hash = λ b. b.nonce;
  merkle_root_of = λ txs. length txs;
  txid_of = λ tx. some tx.txid;
  genesis_hash = none;
  now = 1000;
}

abbrev pay : ℕ → TxOut
pay n = record { amount = n; script_pubkey = 0 ∷ [] }

abbrev coinbase : ℕ → ℕ → Tx
coinbase txid n = record {
  txid = txid;
  is_coinbase = true;
  inputs = [];
  outputs = pay n ∷ [];
  fee = 0;
  block_id = none;
}

-- Half of the genesis reward moves on, a tenth of a coin is the fee.
abbrev spend : Tx
spend = record {
  txid = 50;
  is_coinbase = false;
  inputs = record { prev_txid = 40; vout = 0; script_sig = []; witness = [] } ∷ [];
  outputs = pay 125000000000000 ∷ pay 124999990000000 ∷ [];
  fee = 0;
  block_id = none;
}

abbrev block_of : ℕ → ℕ → ℕ → List Tx → Block
block_of height timestamp bits txs = record {
  height = height;
  prev_block_hash = height;
  merkle_root = length txs;
  timestamp = timestamp;
  bits = bits;
  nonce = height + 1;
  transactions = txs;
  chainwork = none;
  difficulty = 0;
}

abbrev g : Block
g = block_of 0 100 max_bits (coinbase 40 genesis_reward_amount ∷ [])

abbrev b1 : Block
b1 = block_of 1 140 max_bits (coinbase 41 initial_reward ∷ [])

abbrev b2 : Block
b2 = block_of 2 170 522190847 (coinbase 42 initial_reward ∷ [])

abbrev b3 : Block
b3 = block_of 3 210 521964326 (coinbase 43 25010000000 ∷ spend ∷ [])

abbrev chain : List Block
chain = g ∷ b1 ∷ b2 ∷ b3 ∷ []

abbrev coin : ℕ → ℕ → Bool → Coin
coin amount height is_coinbase = record {
  amount = amount;
  height = height;
  is_coinbase = is_coinbase;
}

abbrev coins : Coins
coins =
    ((41, 0), coin initial_reward 1 true)
    ∷ ((42, 0), coin initial_reward 2 true)
    ∷ ((43, 0), coin 25010000000 3 true)
    ∷ ((50, 0), coin 125000000000000 3 false)
    ∷ ((50, 1), coin 124999990000000 3 false)
    ∷ []

accepts_chain : connect_chain native chain ≡ some (coins, 250075000000000)
unfolding connect_chain validate_subsequent_blocks validate_genesis_block genesis_supply
    genesis_lock_ok pow_ok merkle_ok txids_ok header_ok validate_block_timestamp connect_txs
    one_coinbase genesis_coins genesis_outputs spend_txs spend_inputs is_immature remove_spent
    add_txs add_outputs is_opreturn scheduled_reward expected_bits_on_prefix expected_target
    apply_eda eda_intervals apply_diff_clamp last_bits calculate_lwma_target lwma_sums lwma_step
    solve_time block_difficulty median_time_past_of sorted insert_sorted bits_to_target
    target_to_bits large_target_to_bits bit_length_from target_to_difficulty difficulty_to_target
accepts_chain = refl

valid_chain : validate_complete_chain native chain ≡ true
unfolding validate_complete_chain
valid_chain = ground (arith, accepts_chain)

connect_chain-backed_example :
    (coins_value coins ≤ 250075000000000)
    × (250075000000000 ≡ min (scheduled_sum 0 (length chain)) max_supply)
    × (250075000000000 ≤ max_supply)
connect_chain-backed_example = connect_chain-backed native chain coins 250075000000000 accepts_chain

validate_complete_chain-consistent_example :
    (is_chain_consistent native chain ≡ true) × (all (pow_ok native) chain ≡ true)
validate_complete_chain-consistent_example =
    validate_complete_chain-consistent native chain valid_chain

abbrev before : Coins
before = ((40, 0), coin genesis_reward_amount 0 true) ∷ ((41, 0), coin initial_reward 1 true) ∷ []

accepts_spend :
    spend_txs 3 before (spend ∷ []) [] ≡ some ((40, 0) ∷ [], record spend { fee = 10000000 } ∷ [])
unfolding spend_txs spend_inputs is_immature
accepts_spend = refl

spend_txs-AreSpendable_example :
    ((40, 0) ∷ [] ≡ push_txs (spend ∷ []) []) × AreSpendable 3 before (push_txs (spend ∷ []) [])
spend_txs-AreSpendable_example =
    spend_txs-AreSpendable 3 before (spend ∷ []) [] ((40, 0) ∷ [])
      (record spend { fee = 10000000 } ∷ []) accepts_spend tt

-- A node at height 1 takes the longer chain over.
abbrev short : ChainState
short = record { chain = g ∷ b1 ∷ []; total_supply = 250025000000000; total_blocks = 2 }

abbrev long : ChainState
long = record {
  chain = (compute_chainwork_for_chain chain).1;
  total_supply = 250075000000000;
  total_blocks = 4;
}

replaces_short : replace_with native short chain 250075000000000 ≡ accepted long
unfolding replace_with replacement_rejection is_deep_reorg common_ancestor_height index_of loses_tie
    compute_chainwork_for_chain chainwork_from work_from_bits bits_to_target
replaces_short = rw (replace_with, replacement_rejection, valid_chain) refl

replace_with-IsBetter_example :
    (validate_complete_chain native chain ≡ true)
    × IsBetter native chain short.chain
    × IsShallow native short.chain chain
    × (long.chain ≡ (compute_chainwork_for_chain chain).1)
    × (long.total_blocks ≡ length chain)
    × (long.total_supply ≡ 250075000000000)
replace_with-IsBetter_example =
    replace_with-IsBetter native short long chain 250075000000000 replaces_short

-- A block with a smaller hash takes the place of the tip.
abbrev c3 : Block
c3 = record b3 { nonce = 2 }

abbrev c3_tip : Block
c3_tip = record c3 {
  difficulty = work_from_bits c3.bits;
  chainwork = some (work_of (g ∷ b1 ∷ b2 ∷ []) + work_from_bits c3.bits);
}

abbrev swapped : ChainState
swapped = record long { chain = (compute_chainwork_for_chain (g ∷ b1 ∷ b2 ∷ [])).1 ++ c3_tip ∷ [] }

valid_swap : validate_complete_chain native (g ∷ b1 ∷ b2 ∷ c3 ∷ []) ≡ true
unfolding validate_complete_chain connect_chain validate_subsequent_blocks validate_genesis_block
    genesis_supply genesis_lock_ok pow_ok merkle_ok txids_ok header_ok validate_block_timestamp
    connect_txs one_coinbase genesis_coins genesis_outputs spend_txs spend_inputs is_immature
    remove_spent add_txs add_outputs is_opreturn scheduled_reward expected_bits_on_prefix
    expected_target apply_eda eda_intervals apply_diff_clamp last_bits calculate_lwma_target
    lwma_sums lwma_step solve_time block_difficulty median_time_past_of sorted insert_sorted
    bits_to_target target_to_bits large_target_to_bits bit_length_from target_to_difficulty
    difficulty_to_target
valid_swap = refl

swaps_tip : swap_tip_if_better native (record long { chain = chain }) c3 ≡ some swapped
unfolding swap_tip_if_better is_valid_tip_candidate beats_tip compute_chainwork_for_chain
    chainwork_from work_from_bits bits_to_target
swaps_tip = rw valid_swap refl

swap_tip_if_better-length_example :
    (validate_complete_chain native (g ∷ b1 ∷ b2 ∷ c3 ∷ []) ≡ true)
    × (length swapped.chain ≡ length chain)
    × ((work_of chain < work_of (g ∷ b1 ∷ b2 ∷ c3 ∷ []))
        ⊎ (work_of chain ≡ work_of (g ∷ b1 ∷ b2 ∷ c3 ∷ [])) × (2 < 4))
swap_tip_if_better-length_example =
    swap_tip_if_better-length native (record long { chain = chain }) swapped c3 b3 refl swaps_tip
