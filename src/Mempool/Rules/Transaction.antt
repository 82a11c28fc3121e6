-- ===== src/Mempool/Rules/Transaction.antt =====
-- `validate_transaction` of class TxMempoolValidator, src/tsarchain/mempool/validation.py, with its
-- first checks and the entries that the native check is given. A result is the fee, which the source
-- writes to the transaction.
use graffiti_protocol.Base.{
  ℕ, Bool, not, List, [], ◌∷◌, Option, none, some, length, leb, if◌then◌else◌, lookup, insert,
  pair_key,
}
use graffiti_protocol.Ledger.{Tx, TxIn, Outpoint}
use graffiti_protocol.Script.{Bytes}
use graffiti_protocol.Registry.{Registry}
use graffiti_protocol.Utxo.{Utxos}
use graffiti_protocol.Graffiti.{Text}
use graffiti_protocol.Validation.{
  Addresses, compute_tx_weight_vsize, min_tx_vsize, max_tx_vsize, min_tx_weight, max_tx_weight,
  max_tx_inputs, max_tx_outputs,
}
use graffiti_protocol.Mempool.Rules.Outcome.{
  Answer, accepted, rejected, raised, ◌>>◌, ensure, without_reason, tx_vsize_exceeds_limit,
  tx_vsize_below_min, tx_weight_exceeds_limit, tx_weight_below_min, tx_inputs_exceed_limit,
  tx_outputs_exceed_limit, native_reject, native_mempool_failed,
}
use graffiti_protocol.Mempool.Rules.Graffiti.{
  check_graffiti_outputs, find_payout_meta, enforce_mempool_post_limit,
}
use graffiti_protocol.Mempool.Rules.Payout.{validate_payout_tx, check_mempool_payout_sanity}

-- The answer of `native_validate_tx_p2wpkh_compact`: whether it accepts, its reason, the fee.
pub record TxAnswer : Type 0 where
  pub ok : Bool
  pub reason : Option ℕ
  pub fee : ℕ

-- What the checks use from outside the repository; `pool_hash` is the hash of a pool's script.
pub record Library : Type 0 where
  pub texts : Text
  pub addresses : Addresses
  pub pool_hash : ℕ → Bytes
  pub size : Bool → Tx → ℕ
  pub native_validate_tx : Tx → Utxos → ℕ → TxAnswer

-- What they read of the node: `pool` are the transactions that wait.
pub record Node : Type 0 where
  pub registry : Registry
  pub pool : List Tx
  pub store : Utxos
  pub tip_height : ℕ

-- `_utxo_snapshot_to_items`: the entries of the outputs that the transaction names.
unfoldable pub utxo_items : Utxos → List TxIn → Utxos
utxo_items snapshot [] = []
utxo_items snapshot (txin ∷ inputs) =
    let key : Outpoint = (txin.prev_txid, txin.vout) in
    elim (lookup key snapshot) [
      | none ↦ utxo_items snapshot inputs
      | some entry ↦ insert key entry (utxo_items snapshot inputs)
    ]

-- `except Exception` of `validate_transaction`
unfoldable pub caught : {A : Type 0} → Answer A → Answer A
caught (accepted a) = accepted a
caught (rejected r) = rejected r
caught raised = rejected native_mempool_failed

module _ (lib : Library) (node : Node) where
  unfoldable pub validate_tx_basic_guards : Tx → Answer (Unit {0})
  unfolding compute_tx_weight_vsize check_graffiti_outputs
  validate_tx_basic_guards tx =
      let (weight, vsize) = compute_tx_weight_vsize lib.size tx in
      (do
        ensure (not tx.is_coinbase) without_reason
        ensure (leb vsize max_tx_vsize) tx_vsize_exceeds_limit
        ensure (leb min_tx_vsize vsize) tx_vsize_below_min
        ensure (leb weight max_tx_weight) tx_weight_exceeds_limit
        ensure (leb min_tx_weight weight) tx_weight_below_min
        ensure (leb (length tx.inputs) max_tx_inputs) tx_inputs_exceed_limit
        ensure (leb (length tx.outputs) max_tx_outputs) tx_outputs_exceed_limit
        check_graffiti_outputs lib.texts node.registry tx.outputs)

  -- The checks of a transaction that comes in, which one that is mined does not repeat.
  unfoldable pub check_incoming : Option ℕ → Tx → Answer (Unit {0})
  unfolding enforce_mempool_post_limit check_mempool_payout_sanity
  check_incoming (some _) tx = accepted tt
  check_incoming none tx = do
    enforce_mempool_post_limit lib.texts lib.addresses node.registry node.pool tx
    check_mempool_payout_sanity lib.texts lib.addresses.bech32 tx node.registry

  unfoldable pub validate_natively : Utxos → Option ℕ → Tx → Answer ℕ
  unfolding utxo_items check_incoming
  validate_natively utxo_set spend_at_height tx =
      let current_height : ℕ = elim spend_at_height [ none ↦ node.tip_height | some h ↦ h ] in
      let answer = lib.native_validate_tx tx (utxo_items utxo_set tx.inputs) current_height in
      if answer.ok
      then (check_incoming spend_at_height tx >> accepted answer.fee)
      else rejected (native_reject answer.reason)

  unfoldable pub validate_transaction : Tx → Utxos → Option ℕ → Answer ℕ
  unfolding validate_tx_basic_guards find_payout_meta validate_payout_tx validate_natively caught
  validate_transaction tx utxo_set spend_at_height = do
    validate_tx_basic_guards tx
    caught (elim (find_payout_meta lib.texts tx.outputs) [
      | some meta ↦
          validate_payout_tx lib.texts lib.addresses.bech32 lib.pool_hash tx meta node.registry
            utxo_set node.store
      | none ↦ validate_natively utxo_set spend_at_height tx
    ])
