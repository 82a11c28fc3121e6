-- ===== src/Validation/Paid.antt =====
-- What an accepted block spends and pays.
use graffiti_protocol.Base.{
  ℕ, ◌+◌, ◌-◌, ◌<◌, ◌≡◌, arith, inl, inr, min, true, false, List, ◌∷◌, Option, some, any,
  Bool-cases, Option-cases, pos, sum_by, pair_key, nat_key,
}
use graffiti_protocol.Config.{max_supply}
use graffiti_protocol.Ledger.{Tx, Block, output_sum}
use graffiti_protocol.Rewards.{scheduled_reward, cumulative_supply_until}
use graffiti_protocol.Utxo.{Utxos}
use graffiti_protocol.Validation.Reason.{passed}
use graffiti_protocol.Validation.Amounts.{
  prepare_tx_snapshot, fees_of, verify_block_fees_and_rewards, validate_transactions_payload,
}
use graffiti_protocol.Validation.Block.{Outside, NodeState, validate_block}
use graffiti_protocol.Validation.Accepted.{bind-passed, tx_stages, accepted_txs}

-- The coinbase pays the reward of the height, as far as the supply allows, and the fees.
abbrev pub PaysReward : ℕ → Tx → List Tx → Type 0
PaysReward height cb paid =
    (minted : ℕ) × (cumulative_supply_until (pos height) ≡ some minted)
    × (output_sum cb.outputs
        ≡ min (scheduled_reward (pos height)) (max_supply - minted) + sum_by (λ t. t.fee) paid)

reward_lem :
    (height : ℕ) (cb : Tx) (txs : List Tx) (fees : Option (List ℕ)) (checked : List Tx)
    → verify_block_fees_and_rewards height cb txs fees ≡ passed checked
    → (paid : List Tx) × (fees_of txs fees ≡ passed paid)
      × (checked ≡ cb ∷ paid)
      × PaysReward height cb paid
unfolding verify_block_fees_and_rewards
reward_lem height cb txs fees checked h =
    let (paid, e, h1) = bind-passed (fees_of txs fees) _ checked h in
    elim (Option-cases (cumulative_supply_until (pos height))) [
      | inl unknown ↦ absurd (ground arith)
      | inr (minted, known) ↦ (paid, e, ground arith, (minted, known, ground arith))
    ]

-- The native check has accepted the transactions, with the entries of the outputs that they spend, and
-- its fees are those that are paid.
abbrev pub IsChecked : Outside → Utxos → ℕ → Tx → List Tx → List Tx → Type 0
IsChecked o utxos height cb txs paid =
    (snapshot : Utxos) × (prepare_tx_snapshot utxos (cb ∷ txs) ≡ passed snapshot)
    × ((o.native_validate (cb ∷ txs) snapshot height).ok ≡ true)
    × (fees_of txs (o.native_validate (cb ∷ txs) snapshot height).fees ≡ passed paid)

payload_lem :
    (o : Outside) (utxos : Utxos) (height : ℕ) (cb : Tx) (txs checked : List Tx)
    → validate_transactions_payload o.native_validate utxos height cb txs ≡ passed checked
    → (paid : List Tx) × (checked ≡ cb ∷ paid)
      × PaysReward height cb paid
      × IsChecked o utxos height cb txs paid
unfolding validate_transactions_payload
payload_lem o utxos height cb txs checked h =
    let (snapshot, e, h1) = bind-passed (prepare_tx_snapshot utxos (cb ∷ txs)) _ checked h in
    elim (Bool-cases (o.native_validate (cb ∷ txs) snapshot height).ok) [
      | inl accepts ↦
          let answer = o.native_validate (cb ∷ txs) snapshot height in
          let run : verify_block_fees_and_rewards height cb txs answer.fees ≡ passed checked =
            ground arith in
          let (paid, fees, same, pays) = reward_lem height cb txs answer.fees checked run in
          (paid, same, pays, (snapshot, e, accepts, fees))
      | inr rejects ↦ absurd (ground arith)
    ]

-- An accepted block above the genesis block has a coinbase in front and no other; the native check
-- has accepted its transactions, given the outputs they spend; and the coinbase pays exactly the
-- scheduled reward, cut to what is left of the maximum supply, and the fees the native check found.
pub validate_block-PaysReward :
    (o : Outside) (before : NodeState) (later : List Block) (block : Block) (checked : List Tx)
    → 0 < block.height
    → validate_block o before later block ≡ passed checked
    → (cb : Tx) × (txs : List Tx) × (paid : List Tx) × (block.transactions ≡ cb ∷ txs)
      × (checked ≡ cb ∷ paid)
      × (cb.is_coinbase ≡ true)
      × (any (λ t. t.is_coinbase) txs ≡ false)
      × IsChecked o before.utxos block.height cb txs paid
      × PaysReward block.height cb paid
validate_block-PaysReward o before later block checked p h =
    let (cb, txs, these, budget, run) = accepted_txs o before later block checked p h in
    let (front, alone, rules, payload) = tx_stages o before block.height cb txs checked run in
    let (paid, same, pays, native) =
      payload_lem o before.utxos block.height cb txs checked payload in
    (cb, txs, paid, these, same, front, alone, native, pays)
