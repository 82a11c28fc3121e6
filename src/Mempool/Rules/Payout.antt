-- ===== src/Mempool/Rules/Payout.antt =====
-- The payouts of a transaction as the mempool reads them: `_validate_payout_tx` and what it calls, and
-- `_validate_single_payout_sanity`, of src/tsarchain/mempool/validation.py. Both take
-- `payout_meta.get("recipients")` as the parser has left it.
use graffiti_protocol.Base.{
  ℕ, ◌+◌, ◌-◌, Bool, true, false, not, List, [], ◌∷◌, Option, none, some, drop, eqb, ltb, leb,
  leb_ℤ, ◌&&◌, ◌||◌, if◌then◌else◌, ℤ, pos, negsuc, pos_part, Dict, lookup, pair_key, nat_key,
}
use graffiti_protocol.Ledger.{Tx, TxIn, TxOut, output_sum}
use graffiti_protocol.Script.{Bytes, is_p2wsh}
use graffiti_protocol.Registry.{Post, Registry, get_post}
use graffiti_protocol.Utxo.{Entry, Utxos}
use graffiti_protocol.Graffiti.{
  Text, Meta, plain, proof, get, k_art_id, k_epoch, int_or, compute_proof_epoch, parse_from_script,
}
use graffiti_protocol.Validation.{
  amount_of, paymap_of, proof_height_of, has_proof, is_rewind, valid_storer,
}
use graffiti_protocol.Mempool.Rules.Outcome.{
  Answer, accepted, rejected, ◌>>=◌, ◌>>◌, ensure, or_raise, payout_bad_art_id, payout_unknown_art,
  payout_epoch_rewind, payout_missing_proof, payout_no_recipients, payout_bad_recipient,
  payout_recipient_mismatch, payout_shortfall, payout_exceeds_pool, missing_prevout,
  payout_prev_not_pool, payout_wrong_pool, payout_fee_negative,
}
use graffiti_protocol.Mempool.Rules.Graffiti.{clean_field, payout_meta_of}

-- `not recs or type(recs) is not list`
unfoldable pub ensure_recipients : List (ℕ × ℕ) → Answer (Unit {0})
ensure_recipients [] = rejected payout_no_recipients
ensure_recipients (_ ∷ _) = accepted tt

-- `a == b` of two byte strings
unfoldable pub bytes_eqb : Bytes → Bytes → Bool
bytes_eqb [] [] = true
bytes_eqb (b ∷ s) (c ∷ r) = eqb b c && bytes_eqb s r
bytes_eqb (b ∷ s) [] = false
bytes_eqb [] (c ∷ r) = false

-- The entry in the snapshot that is given, or else the store's.
unfoldable pub lookup_utxo_entry : Utxos → Utxos → TxIn → Option Entry
lookup_utxo_entry snapshot store txin = elim (lookup (txin.prev_txid, txin.vout) snapshot) [
  | none ↦ lookup (txin.prev_txid, txin.vout) store
  | some entry ↦ some entry
]

-- The entry is an output to the script whose hash is `pool_script_hash`.
unfoldable pub check_pool_entry : Bytes → Entry → Answer (Unit {0})
unfolding bytes_eqb
check_pool_entry pool_script_hash entry = do
  ensure (is_p2wsh entry.tx_out.script_pubkey) payout_prev_not_pool
  ensure (bytes_eqb (drop 2 entry.tx_out.script_pubkey) pool_script_hash) payout_wrong_pool

-- The loop over the inputs, with `total_in` when all pass.
unfoldable pub check_pool_inputs : Bytes → Utxos → Utxos → List TxIn → ℕ → Answer ℕ
unfolding lookup_utxo_entry check_pool_entry
check_pool_inputs pool_script_hash snapshot store [] total_in = accepted total_in
check_pool_inputs pool_script_hash snapshot store (txin ∷ inputs) total_in =
    elim (lookup_utxo_entry snapshot store txin) [
      | none ↦ rejected missing_prevout
      | some entry ↦ do
        check_pool_entry pool_script_hash entry
        check_pool_inputs pool_script_hash snapshot store inputs (total_in + entry.tx_out.amount)
    ]

-- The fee.
unfoldable pub validate_payout_inputs : Bytes → Utxos → Utxos → Tx → Answer ℕ
unfolding check_pool_inputs
validate_payout_inputs pool_script_hash snapshot store tx = do
  total_in ← check_pool_inputs pool_script_hash snapshot store tx.inputs 0
  ensure (leb (output_sum tx.outputs) total_in) payout_fee_negative
  accepted (total_in - output_sum tx.outputs)

module _ (t : Text) where
  -- The epoch of the proof that the payout names: given, or that of a height.
  unfoldable pub claimed_proof_epoch : Meta → Answer ℤ
  unfolding int_or proof_height_of
  claimed_proof_epoch meta = do
    proof_epoch ← or_raise (int_or t (negsuc 0) (get (proof k_epoch) meta))
    if leb_ℤ (pos 0) proof_epoch then accepted proof_epoch else (do
      proof_height ← or_raise (int_or t (negsuc 0) (proof_height_of t meta))
      if leb_ℤ (pos 0) proof_height
          then accepted (pos (compute_proof_epoch proof_height))
          else accepted proof_epoch)

  -- `epoch >= 0` needs a proof of the epoch or of a later one.
  unfoldable pub ensure_proof : Meta → ℤ → ℕ → Registry → Answer (Unit {0})
  unfolding has_proof claimed_proof_epoch
  ensure_proof meta epoch art_id reg =
      if not (leb_ℤ (pos 0) epoch) || has_proof t art_id (pos_part epoch) reg
      then accepted tt
      else (do
        proof_epoch ← claimed_proof_epoch meta
        ensure (leb_ℤ epoch proof_epoch) payout_missing_proof)

  -- The post that is paid for, where the epoch may be paid.
  unfoldable pub validate_payout_art_and_epoch : Meta → Registry → Answer Post
  unfolding clean_field int_or is_rewind ensure_proof
  validate_payout_art_and_epoch meta reg =
      let art_id = clean_field t k_art_id meta in
      elim (get_post art_id reg) [
        | none ↦ rejected payout_unknown_art
        | some p ↦ do
          epoch ← or_raise (int_or t (negsuc 0) (get (plain k_epoch) meta))
          ensure (not (is_rewind t epoch p.stats.last_paid_epoch)) payout_epoch_rewind
          ensure_proof meta epoch art_id reg
          accepted p
      ]

  -- The loop over the recipients, with `total_req` when all pass; 0 for no storer.
  unfoldable pub check_paid : ℕ → Dict ℕ ℕ → List (ℕ × ℕ) → ℕ → Answer ℕ
  check_paid storer paymap [] total_req = accepted total_req
  check_paid storer paymap ((name, amt_req) ∷ recs) total_req = do
    ensure (not (eqb (t.clean name) 0 || eqb amt_req 0)) payout_bad_recipient
    ensure (eqb storer 0 || eqb (t.clean name) storer) payout_recipient_mismatch
    ensure (not (ltb (amount_of (t.clean name) paymap) amt_req)) payout_shortfall
    check_paid storer paymap recs (total_req + amt_req)

  module _ (bech32 : Bytes → ℕ) where
    unfoldable pub validate_payout_recipients_and_balance :
        Tx → Meta → Post → Registry → Answer (Unit {0})
    unfolding ensure_recipients int_or valid_storer paymap_of check_paid
    validate_payout_recipients_and_balance tx meta p reg = do
      ensure_recipients meta.recipients
      epoch ← or_raise (int_or t (negsuc 0) (get (plain k_epoch) meta))
      total_req ←
          check_paid (valid_storer t (clean_field t k_art_id meta) epoch meta reg)
            (paymap_of t bech32 tx.outputs []) meta.recipients 0
      ensure (leb total_req p.stats.pool_balance) payout_exceeds_pool

    -- `pool_hash` is `hash_pool_redeem_script` as bytes. The fee.
    unfoldable pub validate_payout_tx :
        (ℕ → Bytes) → Tx → Meta → Registry → Utxos → Utxos → Answer ℕ
    unfolding validate_payout_art_and_epoch validate_payout_recipients_and_balance
        validate_payout_inputs
    validate_payout_tx pool_hash tx meta reg snapshot store = do
      p ← validate_payout_art_and_epoch meta reg
      validate_payout_recipients_and_balance tx meta p reg
      validate_payout_inputs (pool_hash (clean_field t k_art_id meta)) snapshot store tx

    -- `_validate_single_payout_sanity`, which names no storer.
    unfoldable validate_single_payout_sanity : Meta → Dict ℕ ℕ → Registry → Answer (Unit {0})
    unfolding clean_field int_or is_rewind ensure_proof ensure_recipients check_paid
    validate_single_payout_sanity meta paymap reg =
        let art_id = clean_field t k_art_id meta in
        if eqb art_id 0 then rejected payout_bad_art_id else (elim (get_post art_id reg) [
          | none ↦ rejected payout_unknown_art
          | some p ↦ do
            epoch ← or_raise (int_or t (negsuc 0) (get (plain k_epoch) meta))
            ensure (not (is_rewind t epoch p.stats.last_paid_epoch)) payout_epoch_rewind
            ensure_proof meta epoch art_id reg
            ensure_recipients meta.recipients
            total_req ← check_paid 0 paymap meta.recipients 0
            ensure (leb total_req p.stats.pool_balance) payout_exceeds_pool
        ])

    unfoldable check_payout_sanity : Option Meta → Dict ℕ ℕ → Registry → Answer (Unit {0})
    unfolding validate_single_payout_sanity
    check_payout_sanity none paymap reg = accepted tt
    check_payout_sanity (some meta) paymap reg = validate_single_payout_sanity meta paymap reg

    unfoldable validate_payout_sanity : List TxOut → Dict ℕ ℕ → Registry → Answer (Unit {0})
    unfolding payout_meta_of check_payout_sanity
    validate_payout_sanity [] paymap reg = accepted tt
    validate_payout_sanity (out ∷ outputs) paymap reg = do
      check_payout_sanity (payout_meta_of t (parse_from_script t out.script_pubkey)) paymap reg
      validate_payout_sanity outputs paymap reg

    unfoldable pub check_mempool_payout_sanity : Tx → Registry → Answer (Unit {0})
    unfolding validate_payout_sanity paymap_of
    check_mempool_payout_sanity tx reg =
        validate_payout_sanity tx.outputs (paymap_of t bech32 tx.outputs []) reg
