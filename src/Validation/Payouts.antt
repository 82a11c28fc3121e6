-- ===== src/Validation/Payouts.antt =====
-- The payouts of a block: `_validate_graffiti_payouts` and what it calls, of
-- src/tsarchain/consensus/validation.py.
use graffiti_protocol.Base.{
  ℕ, ◌+◌, Bool, false, not, List, [], ◌∷◌, Option, none, some, eqb, ltb, leb, leb_ℤ, ◌&&◌, ◌||◌,
  if◌then◌else◌, ℤ, pos, negsuc, pos_part, Dict, lookup, insert, nat_key, pair_key,
}
use graffiti_protocol.Ledger.{Tx, TxOut}
use graffiti_protocol.Script.{Bytes}
use graffiti_protocol.Registry.{Post, Proof, Registry, get_post, get_proof, get_latest_proof_epoch}
use graffiti_protocol.Graffiti.{
  Text, Value, Meta, Event, post, comment, payout, plain, proof, get, k_art_id, k_epoch, k_height,
  k_storer, truthy, str_of, int_or, compute_proof_epoch, parse_from_script,
}
use graffiti_protocol.Validation.Posts.{spk_to_address, text_field}
use graffiti_protocol.Validation.Reason.{
  payout_bad_art_id, payout_unknown_art, payout_epoch_rewind, payout_missing_proof,
  payout_no_recipients, payout_bad_recipient, payout_recipient_not_authorized_storer,
  payout_shortfall, payout_exceeds_pool, unexpected_validation_error, Verdict, require, Checked,
  passed, refused, ◌>>=◌, ◌>>◌, check,
}

-- `d.get(k, 0)`
abbrev pub amount_of : ℕ → Dict ℕ ℕ → ℕ
amount_of k d = elim (lookup k d) [ none ↦ 0 | some n ↦ n ]

module _ (t : Text) (bech32 : Bytes → ℕ) where
  -- What the outputs pay to each address.
  unfoldable pub paymap_of : List TxOut → Dict ℕ ℕ → Dict ℕ ℕ
  unfolding spk_to_address
  paymap_of [] paymap = paymap
  paymap_of (out ∷ outputs) paymap = elim (spk_to_address bech32 out.script_pubkey) [
    | none ↦ paymap_of outputs paymap
    | some addr ↦
        let key = t.clean addr in
        paymap_of outputs (
          if ltb 0 out.amount
          then insert key (amount_of key paymap + out.amount) paymap
          else paymap)
  ]

-- `type(recs) is not list or not recs`
unfoldable pub require_recipients : List (ℕ × ℕ) → Verdict
require_recipients [] = some payout_no_recipients
require_recipients (_ ∷ _) = none

module _ (t : Text) where
  -- `int(obj.get(k, d))`, where an exception ends the validation.
  unfoldable pub read_int : ℤ → Option Value → Checked ℤ
  unfolding int_or
  read_int d v = elim (int_or t d v) [
    | none ↦ refused unexpected_validation_error
    | some n ↦ passed n
  ]

  -- `meta.get("proof_height", meta.get("height", -1))`
  unfoldable pub proof_height_of : Meta → Option Value
  proof_height_of meta = elim (get (proof k_height) meta) [
    | none ↦ get (plain k_height) meta
    | some v ↦ some v
  ]

  -- The epoch of the proof that the payout names: given, or that of a height.
  unfoldable pub proof_epoch_of : Meta → Checked ℤ
  unfolding read_int proof_height_of
  proof_epoch_of meta = do
    proof_epoch ← read_int (negsuc 0) (get (proof k_epoch) meta)
    if leb_ℤ (pos 0) proof_epoch then passed proof_epoch else (do
      proof_height ← read_int (negsuc 0) (proof_height_of meta)
      if leb_ℤ (pos 0) proof_height
          then passed (pos (compute_proof_epoch proof_height))
          else passed proof_epoch)

  -- The registry has a proof of the epoch or a later one.
  unfoldable pub has_proof : ℕ → ℕ → Registry → Bool
  has_proof art_id epoch reg = elim (get_latest_proof_epoch art_id none reg) [
    | none ↦ false
    | some latest_epoch ↦ leb epoch latest_epoch
  ]

  unfoldable pub validate_payout_proof : Meta → ℕ → ℕ → Registry → Checked (Unit {0})
  unfolding has_proof proof_epoch_of
  validate_payout_proof meta epoch art_id reg =
      if has_proof art_id epoch reg then passed tt else (do
        proof_epoch ← proof_epoch_of meta
        check (require (leb_ℤ (pos epoch) proof_epoch) payout_missing_proof))

  -- `str(meta.get("proof_storer") or "").strip().lower()`
  unfoldable pub proof_storer_of : Meta → ℕ
  unfolding truthy str_of
  proof_storer_of meta = elim (get (proof k_storer) meta) [
    | none ↦ 0
    | some v ↦ if truthy t (some v) then t.clean (str_of t v) else 0
  ]

  unfoldable pub storer_of_entry : Option Proof → ℕ
  storer_of_entry none = 0
  storer_of_entry (some p) = t.clean p.storer

  -- The only address that may be paid, or 0 if any may.
  unfoldable pub valid_storer : ℕ → ℤ → Meta → Registry → ℕ
  unfolding proof_storer_of storer_of_entry
  valid_storer art_id epoch meta reg =
      let proof_storer = proof_storer_of meta in
      let entry : Option Proof =
        if leb_ℤ (pos 0) epoch then get_proof art_id proof_storer (pos_part epoch) reg else none in
      if eqb (storer_of_entry entry) 0 then proof_storer else storer_of_entry entry

  -- The loop over the recipients, with `total_req` when all pass.
  unfoldable pub check_recipients : ℕ → Dict ℕ ℕ → List (ℕ × ℕ) → ℕ → Checked ℕ
  check_recipients storer paymap [] total_req = passed total_req
  check_recipients storer paymap ((name, amt_req) ∷ recs) total_req =
      let addr = t.clean name in
      let rest = check_recipients storer paymap recs (total_req + amt_req) in
      if eqb addr 0 || eqb amt_req 0
      then refused payout_bad_recipient
      else (if not (eqb storer 0) && not (eqb addr storer)
          then refused payout_recipient_not_authorized_storer
          else (if ltb (amount_of addr paymap) amt_req then refused payout_shortfall else rest))

  -- `0 <= epoch <= last_epoch`, where `none` is -1
  unfoldable pub is_rewind : ℤ → Option ℕ → Bool
  is_rewind epoch none = false
  is_rewind epoch (some last_epoch) = leb_ℤ (pos 0) epoch && leb_ℤ epoch (pos last_epoch)

  unfoldable pub check_payout_of : Meta → Dict ℕ ℕ → Registry → ℕ → Post → Checked (Unit {0})
  unfolding read_int is_rewind validate_payout_proof require_recipients valid_storer
      check_recipients
  check_payout_of meta paymap reg art_id p = do
    epoch ← read_int (negsuc 0) (get (plain k_epoch) meta)
    check (require (not (is_rewind epoch p.stats.last_paid_epoch)) payout_epoch_rewind)
    if leb_ℤ (pos 0) epoch
        then validate_payout_proof meta (pos_part epoch) art_id reg
        else passed tt
    check (require_recipients meta.recipients)
    total_req ← check_recipients (valid_storer art_id epoch meta reg) paymap meta.recipients 0
    check (require (leb total_req p.stats.pool_balance) payout_exceeds_pool)

  unfoldable pub validate_single_payout : Meta → Dict ℕ ℕ → Registry → Checked (Unit {0})
  unfolding check_payout_of
  validate_single_payout meta paymap reg =
      let art_id = text_field t k_art_id meta in
      if eqb art_id 0 then refused payout_bad_art_id else (elim (get_post art_id reg) [
        | none ↦ refused payout_unknown_art
        | some p ↦ check_payout_of meta paymap reg art_id p
      ])

  unfoldable pub check_output_payout :
      Dict ℕ ℕ → Registry → Option (Event × Meta) → Checked (Unit {0})
  unfolding validate_single_payout
  check_output_payout paymap reg (some (payout, meta)) = validate_single_payout meta paymap reg
  check_output_payout paymap reg (some (post, meta)) = passed tt
  check_output_payout paymap reg (some (comment, meta)) = passed tt
  check_output_payout paymap reg none = passed tt

  unfoldable pub check_outputs_payouts : Dict ℕ ℕ → Registry → List TxOut → Checked (Unit {0})
  unfolding check_output_payout
  check_outputs_payouts paymap reg [] = passed tt
  check_outputs_payouts paymap reg (out ∷ outputs) = do
    check_output_payout paymap reg (parse_from_script t out.script_pubkey)
    check_outputs_payouts paymap reg outputs

  module _ (bech32 : Bytes → ℕ) (reg : Registry) where
    -- The transactions after the coinbase.
    unfoldable pub validate_graffiti_payouts : List Tx → Checked (Unit {0})
    unfolding paymap_of check_outputs_payouts
    validate_graffiti_payouts [] = passed tt
    validate_graffiti_payouts (tx ∷ txs) = do
      check_outputs_payouts (paymap_of t bech32 tx.outputs []) reg tx.outputs
      validate_graffiti_payouts txs
