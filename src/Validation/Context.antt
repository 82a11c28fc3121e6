-- ===== src/Validation/Context.antt =====
-- The checks of a block before its transactions are read: ids, limits, the place in the chain, and
-- signature operations, of src/tsarchain/consensus/validation.py; sizes and signature operations of
-- a transaction, of src/tsarchain/utils/helpers.py and src/tsarchain/core/tx.py.
use graffiti_protocol.Base.{
  ℕ, ◌+◌, ◌-◌, ◌*◌, ◌/◌, max, Bool, true, false, not, List, [], ◌∷◌, Option, none, some, length,
  last?, sum_by, eqb, ltb, leb, ◌||◌, if◌then◌else◌, lookup, member, pair_key, nat_key,
}
use graffiti_protocol.Config.{mtp_windows, future_drift, target_block_time}
use graffiti_protocol.Ledger.{Tx, TxIn, Block}
use graffiti_protocol.Utxo.{Utxos}
use graffiti_protocol.Script.{Bytes, is_p2wpkh, is_p2wsh, last_pushdata}
use graffiti_protocol.Difficulty.{median_time_past_of, calculate_expected_bits}
use graffiti_protocol.Chain.Native.{Native, genesis_lock_ok}
use graffiti_protocol.Validation.Reason.{
  tx_serialize_failed, txid_mismatch, txid_duplicate, too_many_txs, block_size_exceeded,
  height_mismatch, prev_hash_mismatch, bad_genesis_prevhash, genesis_hash_mismatch,
  timestamp_too_old, timestamp_in_future, timestamp_backwards, difficulty_invalid,
  sigops_per_tx_exceeded, sigops_per_block_exceeded, Verdict, require, ◌&>◌,
}

abbrev pub max_block_bytes : ℕ
max_block_bytes = 1200000

abbrev max_txs_per_block : ℕ
max_txs_per_block = 5000

abbrev pub max_sigops_per_block : ℕ
max_sigops_per_block = 40000

abbrev pub max_sigops_per_tx : ℕ
max_sigops_per_tx = 6000

-- Each transaction in turn.
unfoldable pub for_txs : (Tx → Verdict) → List Tx → Verdict
for_txs f [] = none
for_txs f (tx ∷ txs) = f tx &> for_txs f txs

unfoldable pub unique_from : List ℕ → List Tx → Verdict
unique_from seen_txids [] = none
unique_from seen_txids (tx ∷ txs) =
    if member tx.txid seen_txids
    then some txid_duplicate
    else unique_from (tx.txid ∷ seen_txids) txs

-- Every transaction has an id here, since the check before has compared it.
unfoldable pub ensure_unique_txids : List Tx → Verdict
unfolding unique_from
ensure_unique_txids txs = unique_from [] txs

-- The hash of the serialised transaction comes from the native core.
unfoldable pub check_txid : Native → Tx → Verdict
check_txid native tx = elim (native.txid_of tx) [
  | none ↦ some tx_serialize_failed
  | some txid ↦ require (eqb tx.txid txid) txid_mismatch
]

unfoldable pub compute_txids_for_block : Native → List Tx → Verdict
unfolding check_txid for_txs
compute_txids_for_block native txs = for_txs (check_txid native) txs

-- `size w` is the length of the serialised transaction, with its witness or without, which the
-- native core makes.
module _ (size : Bool → Tx → ℕ) where
  -- Weight and virtual size.
  unfoldable pub compute_tx_weight_vsize : Tx → ℕ × ℕ
  compute_tx_weight_vsize tx =
      let weight = size false tx * 3 + size true tx in (weight, (weight + 3) / 4)

  unfoldable pub estimate_block_size : List Tx → ℕ
  estimate_block_size txs = 80 + sum_by (size true) txs

  unfoldable pub check_block_limits : List Tx → Verdict
  unfolding estimate_block_size
  check_block_limits txs =
      require (leb (length txs - 1) max_txs_per_block) too_many_txs
      &> require (leb (estimate_block_size txs) max_block_bytes) block_size_exceeded

-- The checks against the tip; without a block the height is 0 and the hash of the block before
-- ZERO_HASH.
unfoldable pub check_place : Native → Option Block → ℕ → Block → Verdict
check_place native none height block =
    require (eqb block.height 0) height_mismatch
    &> require (eqb block.prev_block_hash 0) bad_genesis_prevhash
    &> require (genesis_lock_ok native block) genesis_hash_mismatch
check_place native (some tip) height block =
    require (eqb block.height height) height_mismatch
    &> require (eqb block.prev_block_hash (native.hash tip)) prev_hash_mismatch

unfoldable pub check_parent_time : Option Block → Block → Verdict
check_parent_time none block = none
check_parent_time (some tip) block =
    require (not (ltb (block.timestamp + target_block_time) tip.timestamp)) timestamp_backwards

-- `_validate_difficulty` of class DifficultyManager
unfoldable pub validate_difficulty : List Block → Block → Bool
validate_difficulty chain block =
    eqb block.height 0 || eqb block.bits (calculate_expected_bits chain block.height)

unfoldable pub validate_chain_context : Native → List Block → Block → Verdict
unfolding check_place check_parent_time validate_difficulty
validate_chain_context native chain block =
    check_place native (last? chain) (length chain) block
    &> require (not (ltb block.timestamp (median_time_past_of mtp_windows chain))) timestamp_too_old
    &> require (not (ltb (native.now + future_drift) block.timestamp)) timestamp_in_future
    &> check_parent_time (last? chain) block
    &> require (validate_difficulty chain block) difficulty_invalid

-- `count` is the native counter of signature operations, which an empty script does not reach.
module _ (count : Bytes → ℕ) where
  unfoldable pub count_sigops_in_script : Bytes → ℕ
  count_sigops_in_script [] = 0
  count_sigops_in_script (b ∷ script) = count (b ∷ script)

  -- The last item of the witness, or nothing.
  unfoldable pub witness_script : List Bytes → Bytes
  witness_script wstack = elim (last? wstack) [ none ↦ [] | some ws ↦ ws ]

  -- `rs or ws`
  unfoldable pub spent_script : Option Bytes → Bytes → Bytes
  spent_script none ws = ws
  spent_script (some []) ws = ws
  spent_script (some (b ∷ rs)) ws = b ∷ rs

  -- An input's operations; at least 1, as `or 1` and `max(1, …)` say.
  unfoldable pub input_sigops : Option Bytes → TxIn → ℕ
  unfolding count_sigops_in_script witness_script spent_script
  input_sigops (some prev_spk) vin =
      if is_p2wpkh prev_spk
      then 1
      else (if is_p2wsh prev_spk
          then max 1 (count_sigops_in_script (witness_script vin.witness))
          else max 1 (count_sigops_in_script prev_spk))
  input_sigops none vin = max 1 (
      count_sigops_in_script
        (spent_script (last_pushdata vin.script_sig) (witness_script vin.witness)))

  -- The script of the output that an input spends, if the store has it.
  unfoldable pub prev_script : Utxos → TxIn → Option Bytes
  prev_script utxos vin = elim (lookup (vin.prev_txid, vin.vout) utxos) [
    | none ↦ none
    | some entry ↦ some entry.tx_out.script_pubkey
  ]

  unfoldable pub sigops_count : Utxos → Tx → ℕ
  unfolding input_sigops prev_script
  sigops_count utxos tx =
      if tx.is_coinbase
      then 0
      else sum_by (λ vin. input_sigops (prev_script utxos vin) vin) tx.inputs

  unfoldable pub sigops_budget : Utxos → ℕ → List Tx → Verdict
  unfolding sigops_count
  sigops_budget utxos total_sigops [] =
      require (leb total_sigops max_sigops_per_block) sigops_per_block_exceeded
  sigops_budget utxos total_sigops (tx ∷ txs) =
      let so = sigops_count utxos tx in
      if leb so max_sigops_per_tx
      then sigops_budget utxos (total_sigops + so) txs
      else some sigops_per_tx_exceeded

  unfoldable pub check_sigops_budget : Utxos → List Tx → Verdict
  unfolding sigops_budget
  check_sigops_budget utxos txs = sigops_budget utxos 0 txs
