-- ===== src/Chain/Validate.antt =====
-- The tests of one block of a candidate chain against its prefix, and the loop over the chain.
use graffiti_protocol.Base.{
  ℕ, ◌+◌, ◌-◌, min, Bool, true, false, not, List, [], ◌∷◌, ◌++◌, Option, none, some, any, sum_by,
  ltb, eqb, if◌then◌else◌, ◌&&◌, pos, insert, pair_key,
}
use graffiti_protocol.Config.{max_supply, future_drift, mtp_windows}
use graffiti_protocol.Ledger.{Tx, TxOut, Block, output_sum}
use graffiti_protocol.Rewards.{scheduled_reward}
use graffiti_protocol.Difficulty.{median_time_past_of, expected_bits_on_prefix}
use graffiti_protocol.Chain.Native.{Native, pow_ok, merkle_ok, txids_ok, genesis_lock_ok}
use graffiti_protocol.Chain.Spend.{Coin, Coins, spend_txs, remove_spent, add_txs}

-- The genesis coinbase pays the reward, and nothing else; the minted supply if it does.
unfoldable pub genesis_supply : List Tx → ℕ → Option ℕ
genesis_supply [] reward = none
genesis_supply (cb ∷ _) reward =
    if cb.is_coinbase && eqb (output_sum cb.outputs) reward then some reward else none

module _ (native : Native) where
  open native use {hash, now}

  -- The genesis block's own tests; the minted supply if it passes.
  unfoldable pub validate_genesis_block : Block → Option ℕ
  unfolding genesis_supply
  validate_genesis_block g =
      let reward = min (scheduled_reward (pos 0)) (max_supply - 0) in
      if eqb g.height 0
        && eqb g.prev_block_hash 0
        && genesis_lock_ok native g
        && pow_ok native g
        && txids_ok native g
        && merkle_ok native g
      then genesis_supply g.transactions reward
      else none

  unfoldable pub validate_block_timestamp : List Block → Block → Bool
  validate_block_timestamp prefix cur =
      not (ltb (now + future_drift) cur.timestamp)
      && not (ltb cur.timestamp (median_time_past_of mtp_windows prefix))

  -- Everything that is tested before the transactions of a block are read.
  unfoldable pub header_ok : List Block → Block → Block → Bool
  header_ok prefix prev cur =
      eqb cur.height (prev.height + 1)
      && eqb cur.prev_block_hash (hash prev)
      && validate_block_timestamp prefix cur
      && eqb (expected_bits_on_prefix prefix cur.height) cur.bits
      && pow_ok native cur
      && txids_ok native cur
      && merkle_ok native cur

-- `not any(t.is_coinbase for t in txs[1:])` with a coinbase in front.
unfoldable pub one_coinbase : Tx → List Tx → Bool
one_coinbase cb txs = cb.is_coinbase && not (any (λ t. t.is_coinbase) txs)

-- The transactions of one block: the output set and the supply afterwards, or `none`.
unfoldable pub connect_txs : ℕ → List Tx → Coins × ℕ → Option (Coins × ℕ)
connect_txs cur_height [] s = none
connect_txs cur_height (cb ∷ txs) (coins, supply) =
    if one_coinbase cb txs
    then (elim (spend_txs cur_height coins txs []) [
      | none ↦ none
      | some (spent, checked) ↦
          let fees = sum_by (λ t. t.fee) checked in
          let reward = min (scheduled_reward (pos cur_height)) (max_supply - supply) in
          if eqb (output_sum cb.outputs) (reward + fees)
          then some (add_txs cur_height (cb ∷ checked) (remove_spent spent coins), supply + reward)
          else none
    ])
    else none

-- The genesis coinbase's outputs, all of them.
unfoldable pub genesis_outputs : ℕ → ℕ → List TxOut → Coins → Coins
genesis_outputs txid idx [] coins = coins
genesis_outputs txid idx (out ∷ outputs) coins =
    let coin : Coin = record { amount = out.amount; height = 0; is_coinbase = true } in
    genesis_outputs txid (idx + 1) outputs (insert (txid, idx) coin coins)

unfoldable pub genesis_coins : List Tx → Coins
unfolding genesis_outputs
genesis_coins [] = []
genesis_coins (cb ∷ _) = genesis_outputs cb.txid 0 cb.outputs []

module _ (native : Native) where
  -- The loop of `_validate_subsequent_blocks`; `prefix` is `chain[:i]` and `prev` its last block.
  unfoldable pub validate_subsequent_blocks :
      List Block → Block → List Block → Coins × ℕ → Option (Coins × ℕ)
  validate_subsequent_blocks prefix prev [] s = some s
  validate_subsequent_blocks prefix prev (cur ∷ rest) s =
      if header_ok native prefix prev cur
      then (elim (connect_txs cur.height cur.transactions s) [
        | none ↦ none
        | some s' ↦ validate_subsequent_blocks (prefix ++ cur ∷ []) cur rest s'
      ])
      else none

  -- `_validate_complete_chain`, with the output set and the supply that it ends with.
  unfoldable pub connect_chain : List Block → Option (Coins × ℕ)
  connect_chain [] = none
  connect_chain (g ∷ blocks) = elim (validate_genesis_block native g) [
    | none ↦ none
    | some supply ↦
        validate_subsequent_blocks (g ∷ []) g blocks (genesis_coins g.transactions, supply)
  ]

  unfoldable pub validate_complete_chain : List Block → Bool
  unfolding connect_chain
  validate_complete_chain chain = elim (connect_chain chain) [ none ↦ false | some _ ↦ true ]
