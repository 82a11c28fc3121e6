-- ===== src/Validation/Reason.antt =====
-- The reasons that class BlockValidator of src/tsarchain/consensus/validation.py leaves in
-- `_last_block_validation_error`, and checks that stop at the first of them.
use graffiti_protocol.Base.{◌≡◌, refl, ◌⊎◌, inl, inr, ℕ, Bool, Option, none, some, if◌then◌else◌}
use graffiti_protocol.Ledger.{Outpoint}

pub data Reason : Type 0 where
  block_missing_fields : Reason
  pow_invalid : Reason
  tx_serialize_failed : Reason
  txid_mismatch : Reason
  merkle_mismatch : Reason
  txid_duplicate : Reason
  duplicate_or_missing_txid : Reason
  too_many_txs : Reason
  block_size_exceeded : Reason
  block_limits_exceeded : Reason
  height_mismatch : Reason
  prev_hash_mismatch : Reason
  bad_genesis_prevhash : Reason
  genesis_hash_mismatch : Reason
  timestamp_too_old : Reason
  timestamp_in_future : Reason
  timestamp_backwards : Reason
  difficulty_invalid : Reason
  chain_context_invalid : Reason
  sigops_per_tx_exceeded : Reason
  sigops_per_block_exceeded : Reason
  sigops_limit_exceeded : Reason
  empty_block_transactions : Reason
  missing_coinbase : Reason
  duplicate_coinbase : Reason
  tx_too_large : Reason
  tx_vsize_below_min : Reason
  tx_vsize_exceeds_limit : Reason
  tx_weight_below_min : Reason
  tx_weight_exceeds_limit : Reason
  tx_inputs_exceed_limit : Reason
  tx_outputs_exceed_limit : Reason
  graffiti_opreturn_too_large : Reason
  graffiti_payload_invalid : Reason
  graffiti_size_invalid : Reason
  graffiti_size_exceeds_limit : Reason
  graffiti_comment_empty : Reason
  graffiti_comment_too_large : Reason
  graffiti_comment_fee_too_low : Reason
  graffiti_comment_tip_negative : Reason
  graffiti_duplicate_post : Reason
  too_many_graffiti_posts : Reason
  block_id_mismatch_graffiti : Reason
  payout_bad_art_id : Reason
  payout_unknown_art : Reason
  payout_epoch_rewind : Reason
  payout_missing_proof : Reason
  payout_no_recipients : Reason
  payout_bad_recipient : Reason
  payout_recipient_not_authorized_storer : Reason
  payout_shortfall : Reason
  payout_exceeds_pool : Reason
  prevout_missing : Outpoint → Reason
  native_validation_failed : Option ℕ → Reason
  fee_mismatch : Reason
  coinbase_amount_mismatch : ℕ → ℕ → Reason
  chain_state_changed_during_validation : Reason
  unexpected_validation_error : Reason

-- `none` is True, and `some r` is False with the reason `r` set.
abbrev pub Verdict : Type 0
Verdict = Option Reason

-- A test, and the reason when it does not hold.
abbrev pub require : Bool → Reason → Verdict
require b r = if b then none else some r

-- One check after another, to the first that fails.
infixr 4 ◌&>◌
abbrev pub ◌&>◌ : Verdict → Verdict → Verdict
none &> w = w
some r &> w = some r

-- A reason that is put in the place of the one before.
abbrev pub overwrite : Reason → Verdict → Verdict
overwrite r none = none
overwrite r (some _) = some r

-- A check with a result.
pub data Checked {ℓ} (A : Type ℓ) : Type ℓ where
  passed : A → Checked A
  refused : Reason → Checked A

infixl 5 ◌>>=◌ ◌>>◌
abbrev pub ◌>>=◌ {ℓ κ} : {A : Type ℓ} {B : Type κ} → Checked A → (A → Checked B) → Checked B
passed a >>= f = f a
refused r >>= f = refused r

abbrev pub ◌>>◌ {ℓ} : {B : Type ℓ} → Checked (Unit {0}) → Checked B → Checked B
m >> k = m >>= λ _. k

abbrev pub check : Verdict → Checked (Unit {0})
check none = passed tt
check (some r) = refused r

pub Checked-cases {ℓ} :
    {A : Type ℓ} (m : Checked A) → ((r : Reason) × (m ≡ refused r)) ⊎ ((a : A) × (m ≡ passed a))
Checked-cases (passed a) = inr (a, refl)
Checked-cases (refused r) = inl (r, refl)
