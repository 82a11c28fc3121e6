-- ===== src/Graffiti/Payer.antt =====
-- The transactions that pay out of a pool: `build_payout_tx` and what it calls, of
-- src/tsarchain/contracts/graffiti.py. `none` is an exception. An amount is what is left over where the
-- source subtracts after a test; recipients are a list of addresses and amounts, also where a dict is
-- given.
use graffiti_protocol.Base.{
  ℕ, zero, suc, ◌+◌, ◌-◌, ◌*◌, max, Bool, true, false, List, [], ◌∷◌, ◌++◌, Option, none, some, map,
  length, eqb, ltb, leb, ◌&&◌, if◌then◌else◌, sum_by, Dict, lookup, insert, nat_key, pair_key, pos,
  ◌>>=◌, ◌>>◌, guard, sort_by,
}
use graffiti_protocol.Ledger.{Tx, TxIn, TxOut, Outpoint, output_sum}
use graffiti_protocol.Script.{Bytes, opcode, push, serialize}
use graffiti_protocol.Graffiti.Payload.{
  plain, proof, k_event, k_offset, k_length, k_hash, k_seed, k_height, k_epoch, k_storer, k_art_id,
  normalize_art_id, set, Value, Meta, Text, number, text,
}

abbrev max_opret : ℕ
max_opret = 580

-- An output of a pool.
pub record PoolUtxo : Type 0 where
  pub txid : ℕ
  pub vout : ℕ
  pub amount : ℕ

abbrev pub Recipients : Type 0
Recipients = List (ℕ × ℕ)

abbrev pub needed : Recipients → ℕ
needed = sum_by (λ (r : ℕ × ℕ). r.1)

abbrev pub available : List PoolUtxo → ℕ
available = sum_by (λ (u : PoolUtxo). u.amount)

-- `uniq[k] = item` for each item, and the values.
unfoldable unique_by_outpoint : List PoolUtxo → Dict Outpoint PoolUtxo → List PoolUtxo
unique_by_outpoint [] uniq = map (λ (e : Outpoint × PoolUtxo). e.1) uniq
unique_by_outpoint (item ∷ items) uniq =
    unique_by_outpoint items (insert (item.txid, item.vout) item uniq)

-- `_find_pool_utxos`, from the outputs that the address index and the store have for the pool.
unfoldable find_pool_utxos : List PoolUtxo → List PoolUtxo → List PoolUtxo
unfolding unique_by_outpoint sort_by
find_pool_utxos indexed stored =
    sort_by (λ (x y : PoolUtxo). ltb x.amount y.amount) (unique_by_outpoint (indexed ++ stored) [])

module _ (t : Text) where
  -- `_validate_and_format_recipients` for a list.
  unfoldable pub format_each : Recipients → Option Recipients
  format_each [] = some []
  format_each ((name, amt) ∷ recipients) = do
    guard (t.is_address (t.clean name) && ltb 0 amt)
    rest ← format_each recipients
    some ((t.clean name, amt) ∷ rest)

  unfoldable pub validate_and_format_recipients : Recipients → Option Recipients
  unfolding format_each
  validate_and_format_recipients recipients = do
    guard (ltb 0 (length recipients))
    format_each recipients

  -- `proof_{k}` for the keys that the proof has.
  unfoldable pub add_proof : List ℕ → Dict ℕ Value → Meta → Meta
  add_proof [] proof_fields meta = meta
  add_proof (k ∷ ks) proof_fields meta = elim (lookup k proof_fields) [
    | none ↦ add_proof ks proof_fields meta
    | some v ↦ add_proof ks proof_fields (set (proof k) v meta)
  ]

  -- `build_payout_metadata`, without its argument `extra`, which no payout has.
  unfoldable pub build_payout_metadata : ℕ → ℕ → Recipients → Dict ℕ Value → Option Meta
  unfolding normalize_art_id validate_and_format_recipients add_proof
  build_payout_metadata art_id epoch recipients proof_fields = do
    art_id_norm ← normalize_art_id t (some (text art_id))
    rec_list ← validate_and_format_recipients recipients
    some (
        add_proof (k_offset ∷ k_length ∷ k_hash ∷ k_seed ∷ k_height ∷ k_epoch ∷ k_storer ∷ [])
          proof_fields
          (record {
            fields =
                (plain k_event, text t.t_payout)
                ∷ (plain k_art_id, text art_id_norm)
                ∷ (plain k_epoch, number (pos epoch))
                ∷ [];
            raw_recipients = some (
                map
                  (λ (r : ℕ × ℕ).
                    some (record { addr = some (text r.0); amount = some (number (pos r.1)) }))
                  rec_list);
            recipients = [];
          }))

  -- `encode_payload` and `build_script`; `dumps` is the compact JSON.
  unfoldable pub build_script : (Meta → Bytes) → Meta → Option Bytes
  build_script dumps meta = do
    let payload = t.magic ++ dumps meta
    guard (leb (length payload) max_opret)
    some (serialize (opcode 0x6A ∷ push payload ∷ []))

-- What a payout takes from outside: hashing, scripts of addresses, JSON, and the id and size of a
-- transaction.
pub record PayerTools : Type 0 where
  pub texts : Text
  pub art_digest : ℕ → Bytes
  pub redeem_script : ℕ → Bytes
  pub pool_spk : ℕ → Bytes
  pub p2wpkh_script : ℕ → Bytes
  pub dumps : Meta → Bytes
  pub txid_of : List TxIn → List TxOut → ℕ
  pub vsize : List TxIn → List TxOut → ℕ

-- What one payout is asked for; the art id is as `_normalize_art_id` has left it.
pub record Request : Type 0 where
  pub art_id : ℕ
  pub epoch : ℕ
  pub proof_fields : Dict ℕ Value
  pub rate : ℕ
  pub dust : ℕ

module _ (o : PayerTools) (q : Request) where
  unfoldable pub build_inputs : List PoolUtxo → List TxIn
  build_inputs = map λ (u : PoolUtxo). record {
    prev_txid = u.txid;
    vout = u.vout;
    script_sig = [];
    witness = o.art_digest q.art_id ∷ o.redeem_script q.art_id ∷ [];
  }

  -- `_build_opret`
  unfoldable pub build_opret : Recipients → Option TxOut
  unfolding build_payout_metadata build_script
  build_opret recipients = do
    meta ← build_payout_metadata o.texts q.art_id q.epoch recipients q.proof_fields
    script ← build_script o.texts o.dumps meta
    some (record { amount = 0; script_pubkey = script })

  -- The outputs to the recipients.
  abbrev pub pay_outputs : (ℕ → ℕ) → Recipients → List TxOut
  pay_outputs amount_of =
      map λ (r : ℕ × ℕ). record { amount = amount_of r.1; script_pubkey = o.p2wpkh_script r.0 }

  abbrev pub change_output : ℕ → TxOut
  change_output amount = record { amount = amount; script_pubkey = o.pool_spk q.art_id }

  -- `_estimate_fee`, of a transaction with amounts of 1.
  unfoldable pub estimate_fee : List PoolUtxo → Bool → Recipients → Option ℕ
  unfolding build_opret build_inputs
  estimate_fee selected_utxos include_change recipients = do
    opret ← build_opret recipients
    let change = if include_change then change_output (max 1 q.dust) ∷ [] else []
    let outs = change ++ (pay_outputs (λ _. 1) recipients ++ opret ∷ [])
    some (q.rate * max 1 (o.vsize (build_inputs selected_utxos) outs))

  -- A transaction of these inputs and outputs, with the fee that they leave.
  unfoldable pub spend_pool : List PoolUtxo → List TxOut → Tx
  unfolding build_inputs
  spend_pool selected_utxos outs = record {
    txid = o.txid_of (build_inputs selected_utxos) outs;
    is_coinbase = false;
    inputs = build_inputs selected_utxos;
    outputs = outs;
    fee = available selected_utxos - output_sum outs;
    block_id = none;
  }

  -- The loop of `_payout_select_utxos`: the outputs that are spent, and the change.
  unfoldable pub select_utxos :
      Recipients → List PoolUtxo → List PoolUtxo → Option (List PoolUtxo × ℕ)
  unfolding estimate_fee
  select_utxos rec_list [] selected_utxos = none
  select_utxos rec_list (utxo ∷ utxos) selected_utxos =
      let selected = selected_utxos ++ utxo ∷ [] in
      let acc = available selected in
      let rest = select_utxos rec_list utxos selected in
      (do
        fee_with_change ← estimate_fee selected true rec_list
        if leb (needed rec_list + fee_with_change + q.dust) acc
            then some (selected, acc - needed rec_list - fee_with_change)
            else (do
              fee_no_change ← estimate_fee selected false rec_list
              if leb (needed rec_list + fee_no_change) acc then some (selected, 0) else rest))

  -- The outputs that are spent are given beside the transaction, whose inputs are made of them.
  unfoldable pub payout_select_utxos : List PoolUtxo → Recipients → Option (Tx × List PoolUtxo)
  unfolding select_utxos build_opret spend_pool
  payout_select_utxos utxos_sorted rec_list = do
    (selected_utxos, change_amt) ← select_utxos rec_list utxos_sorted []
    opret ← build_opret rec_list
    let change = if leb q.dust change_amt then change_output change_amt ∷ [] else []
    let outs = change ++ (pay_outputs (λ n. n) rec_list ++ opret ∷ [])
    some (spend_pool selected_utxos outs, selected_utxos)

  -- The two rounds of `_payout_max_claim`, for the only recipient.
  unfoldable pub claim_rounds : ℕ → List PoolUtxo → ℕ → ℕ → Option ℕ
  unfolding estimate_fee
  claim_rounds zero utxos addr amount = some amount
  claim_rounds (suc rounds) utxos addr amount = do
    fee_est ← estimate_fee utxos false ((addr, amount) ∷ [])
    guard (ltb fee_est (available utxos))
    (let payout_amt = available utxos - fee_est in
        let rest = claim_rounds rounds utxos addr payout_amt in
        if eqb payout_amt amount then some amount else rest)

  unfoldable pub payout_max_claim : List PoolUtxo → ℕ → ℕ → Option (Tx × List PoolUtxo)
  unfolding claim_rounds build_opret spend_pool
  payout_max_claim utxos addr amount = do
    paid ← claim_rounds 2 utxos addr amount
    opret ← build_opret ((addr, paid) ∷ [])
    some (spend_pool utxos (pay_outputs (λ n. n) ((addr, paid) ∷ []) ++ opret ∷ []), utxos)

  -- A single recipient who asks for all there is gets what the fee leaves.
  unfoldable pub pay_from : List PoolUtxo → Recipients → Option (Tx × List PoolUtxo)
  unfolding payout_max_claim payout_select_utxos
  pay_from utxos_sorted ((addr, amount) ∷ []) =
      if eqb amount (available utxos_sorted)
      then payout_max_claim utxos_sorted addr amount
      else payout_select_utxos utxos_sorted ((addr, amount) ∷ [])
  pay_from utxos_sorted rec_list = payout_select_utxos utxos_sorted rec_list

  -- `pool` are the outputs that `_find_pool_utxos` finds. The transaction, and what it spends.
  unfoldable pub build_payout_tx : List PoolUtxo → Recipients → Option (Tx × List PoolUtxo)
  unfolding validate_and_format_recipients pay_from sort_by
  build_payout_tx pool recipients = do
    rec_list ← validate_and_format_recipients o.texts recipients
    guard (ltb 0 (length pool))
    guard (leb (needed rec_list) (available pool))
    pay_from (sort_by (λ (x y : PoolUtxo). ltb y.amount x.amount) pool) rec_list
