-- ===== src/Validation/Amounts.antt =====
-- What the transactions of a block spend and what its coinbase is paid: the snapshot of spent
-- outputs, the native check and the reward, of src/tsarchain/consensus/validation.py.
use graffiti_protocol.Base.{
  ℕ, ◌+◌, ◌-◌, min, Bool, List, [], ◌∷◌, Option, none, some, length, sum_by, eqb, if◌then◌else◌,
  pos, lookup, insert, contains, member, add, pair_key, nat_key,
}
use graffiti_protocol.Config.{max_supply}
use graffiti_protocol.Ledger.{Tx, TxIn, Outpoint, output_sum}
use graffiti_protocol.Utxo.{Utxos}
use graffiti_protocol.Rewards.{scheduled_reward, cumulative_supply_until}
use graffiti_protocol.Validation.Reason.{
  prevout_missing, native_validation_failed, fee_mismatch, coinbase_amount_mismatch,
  unexpected_validation_error, Checked, passed, refused, ◌>>=◌,
}

-- The entries of the outputs that one transaction spends, those of earlier ones in the block apart.
-- An entry has one layout with a script, so that native_snapshot_invalid_entry does not arise.
unfoldable pub snapshot_inputs : Utxos → List ℕ → List TxIn → Utxos → Checked Utxos
snapshot_inputs utxos processed_txids [] snapshot = passed snapshot
snapshot_inputs utxos processed_txids (vin ∷ inputs) snapshot =
    let key : Outpoint = (vin.prev_txid, vin.vout) in
    if member vin.prev_txid processed_txids
    then snapshot_inputs utxos processed_txids inputs snapshot
    else (if contains key snapshot
        then snapshot_inputs utxos processed_txids inputs snapshot
        else (elim (lookup key utxos) [
          | none ↦ refused (prevout_missing key)
          | some entry ↦ snapshot_inputs utxos processed_txids inputs (insert key entry snapshot)
        ]))

unfoldable pub snapshot_txs : Utxos → List ℕ → List Tx → Utxos → Checked Utxos
unfolding snapshot_inputs
snapshot_txs utxos processed_txids [] snapshot = passed snapshot
snapshot_txs utxos processed_txids (tx ∷ txs) snapshot =
    if tx.is_coinbase
    then snapshot_txs utxos (add tx.txid processed_txids) txs snapshot
    else (elim (snapshot_inputs utxos processed_txids tx.inputs snapshot) [
      | refused r ↦ refused r
      | passed snapshot' ↦ snapshot_txs utxos (add tx.txid processed_txids) txs snapshot'
    ])

unfoldable pub prepare_tx_snapshot : Utxos → List Tx → Checked Utxos
unfolding snapshot_txs
prepare_tx_snapshot utxos txs = snapshot_txs utxos [] txs []

-- The answer of the native check: whether it accepts, its reason, and the fees where it has a list.
pub record NativeAnswer : Type 0 where
  pub ok : Bool
  pub reason : Option ℕ
  pub fees : Option (List ℕ)

-- `zip(txs[1:], fees_list)`
unfoldable pub with_fees : List Tx → List ℕ → List Tx
with_fees [] fees = []
with_fees (tx ∷ txs) [] = tx ∷ txs
with_fees (tx ∷ txs) (fee ∷ fees) = record tx { fee = fee } ∷ with_fees txs fees

-- The transactions after the coinbase with the fees that the native check found, one for each.
unfoldable pub fees_of : List Tx → Option (List ℕ) → Checked (List Tx)
unfolding with_fees
fees_of txs none = passed txs
fees_of txs (some fees) =
    if eqb (length fees) (length txs) then passed (with_fees txs fees) else refused fee_mismatch

-- The reward is what the schedule says, up to what is left of the supply.
unfoldable pub verify_block_fees_and_rewards :
    ℕ → Tx → List Tx → Option (List ℕ) → Checked (List Tx)
unfolding fees_of
verify_block_fees_and_rewards height cb txs fees = do
  paid ← fees_of txs fees
  elim (cumulative_supply_until (pos height)) [
    | none ↦ refused unexpected_validation_error
    | some minted_before ↦
        let reward = min (scheduled_reward (pos height)) (max_supply - minted_before) in
        let expected_cb = reward + sum_by (λ t. t.fee) paid in
        let actual_cb = output_sum cb.outputs in
        if eqb actual_cb expected_cb
        then passed (cb ∷ paid)
        else refused (coinbase_amount_mismatch expected_cb actual_cb)
  ]

module _ (native_validate : List Tx → Utxos → ℕ → NativeAnswer) where
  unfoldable pub validate_transactions_payload : Utxos → ℕ → Tx → List Tx → Checked (List Tx)
  unfolding prepare_tx_snapshot verify_block_fees_and_rewards
  validate_transactions_payload utxos height cb txs = do
    snapshot ← prepare_tx_snapshot utxos (cb ∷ txs)
    (let answer = native_validate (cb ∷ txs) snapshot height in
        if answer.ok
        then verify_block_fees_and_rewards height cb txs answer.fees
        else refused (native_validation_failed answer.reason))
