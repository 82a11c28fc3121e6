-- ===== src/Validation/Guardrails.antt =====
-- The sizes of each transaction and the graffiti payloads of its outputs, of
-- src/tsarchain/consensus/validation.py.
use graffiti_protocol.Base.{
  ℕ, Bool, true, List, [], ◌∷◌, Option, none, some, length, leb, leb_ℤ, ltb_ℤ, if◌then◌else◌, ℤ,
  pos, pair_key,
}
use graffiti_protocol.Ledger.{Tx, TxOut}
use graffiti_protocol.Script.{Bytes, last_pushdata}
use graffiti_protocol.Graffiti.{
  Text, Meta, Event, post, comment, payout, plain, get, k_size, k_comment_len, k_amount, k_tip,
  comment_max_bytes, comment_min_fee, int_or, starts_with, parse_payload,
}
use graffiti_protocol.Validation.Context.{max_block_bytes, compute_tx_weight_vsize, for_txs}
use graffiti_protocol.Validation.Reason.{
  tx_too_large, tx_vsize_below_min, tx_vsize_exceeds_limit, tx_weight_below_min,
  tx_weight_exceeds_limit, tx_inputs_exceed_limit, tx_outputs_exceed_limit,
  graffiti_opreturn_too_large, graffiti_payload_invalid, graffiti_size_invalid,
  graffiti_size_exceeds_limit, graffiti_comment_empty, graffiti_comment_too_large,
  graffiti_comment_fee_too_low, graffiti_comment_tip_negative, unexpected_validation_error, Verdict,
  require, ◌&>◌,
}

abbrev pub min_tx_vsize : ℕ
min_tx_vsize = 100

abbrev pub max_tx_vsize : ℕ
max_tx_vsize = 10000

abbrev pub min_tx_weight : ℕ
min_tx_weight = 400

abbrev pub max_tx_weight : ℕ
max_tx_weight = 40000

abbrev pub max_tx_inputs : ℕ
max_tx_inputs = 1000

abbrev pub max_tx_outputs : ℕ
max_tx_outputs = 1000

abbrev pub max_graffiti_opret : ℕ
max_graffiti_opret = 580

abbrev pub graffiti_max_size_bytes : ℕ
graffiti_max_size_bytes = 157286400

module _ (t : Text) where
  -- A check of `int(meta.get(k, 0))`; an exception of `int` ends the validation.
  unfoldable check_field : ℕ → (ℤ → Verdict) → Meta → Verdict
  unfolding int_or
  check_field k f meta = elim (int_or t (pos 0) (get (plain k) meta)) [
    | none ↦ some unexpected_validation_error
    | some n ↦ f n
  ]

  unfoldable check_post_size : ℤ → Verdict
  check_post_size size_val =
      require (ltb_ℤ (pos 0) size_val) graffiti_size_invalid
      &> require (leb_ℤ size_val (pos graffiti_max_size_bytes)) graffiti_size_exceeds_limit

  unfoldable validate_graffiti_post_event : Meta → Verdict
  unfolding check_field check_post_size
  validate_graffiti_post_event meta = check_field k_size check_post_size meta

  unfoldable check_comment_len : ℤ → Verdict
  check_comment_len comment_len =
      require (ltb_ℤ (pos 0) comment_len) graffiti_comment_empty
      &> require (leb_ℤ comment_len (pos comment_max_bytes)) graffiti_comment_too_large

  unfoldable validate_graffiti_comment_event : Meta → Verdict
  unfolding check_field check_comment_len
  validate_graffiti_comment_event meta =
      check_field k_comment_len check_comment_len meta
      &> check_field k_amount
          (λ n. require (leb_ℤ (pos comment_min_fee) n) graffiti_comment_fee_too_low) meta
      &> check_field k_tip (λ n. require (leb_ℤ (pos 0) n) graffiti_comment_tip_negative) meta

  unfoldable validate_event : Option (Event × Meta) → Verdict
  unfolding validate_graffiti_post_event validate_graffiti_comment_event
  validate_event none = some graffiti_payload_invalid
  validate_event (some (post, meta)) = validate_graffiti_post_event meta
  validate_event (some (comment, meta)) = validate_graffiti_comment_event meta
  validate_event (some (payout, meta)) = none

  -- The last push of an output's script, if it begins as a graffiti payload does.
  unfoldable pub validate_graffiti_payload : Option Bytes → Verdict
  unfolding starts_with parse_payload validate_event
  validate_graffiti_payload none = none
  validate_graffiti_payload (some raw) =
      if starts_with t.magic raw
      then require (leb (length raw) max_graffiti_opret) graffiti_opreturn_too_large
        &> validate_event (parse_payload t raw)
      else none

  unfoldable pub validate_graffiti_output : Bytes → Verdict
  unfolding validate_graffiti_payload
  validate_graffiti_output spk = validate_graffiti_payload (last_pushdata spk)

  unfoldable pub validate_graffiti_outputs : List TxOut → Verdict
  unfolding validate_graffiti_output
  validate_graffiti_outputs [] = none
  validate_graffiti_outputs (out ∷ outputs) =
      validate_graffiti_output out.script_pubkey &> validate_graffiti_outputs outputs

  module _ (size : Bool → Tx → ℕ) where
    unfoldable pub check_sizes : ℕ → ℕ → Verdict
    check_sizes weight vsize =
        require (leb min_tx_vsize vsize) tx_vsize_below_min
        &> require (leb vsize max_tx_vsize) tx_vsize_exceeds_limit
        &> require (leb min_tx_weight weight) tx_weight_below_min
        &> require (leb weight max_tx_weight) tx_weight_exceeds_limit

    unfoldable pub validate_tx_guardrail : Tx → Verdict
    unfolding compute_tx_weight_vsize check_sizes validate_graffiti_outputs
    validate_tx_guardrail tx =
        let (weight, vsize) = compute_tx_weight_vsize size tx in
        require (leb (size true tx) max_block_bytes) tx_too_large
        &> check_sizes weight vsize
        &> require (leb (length tx.inputs) max_tx_inputs) tx_inputs_exceed_limit
        &> require (leb (length tx.outputs) max_tx_outputs) tx_outputs_exceed_limit
        &> validate_graffiti_outputs tx.outputs

    unfoldable pub validate_tx_guardrails : List Tx → Verdict
    unfolding for_txs validate_tx_guardrail
    validate_tx_guardrails txs = for_txs validate_tx_guardrail txs
