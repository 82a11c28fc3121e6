-- ===== src/Mempool/Rules/Outcome.antt =====
-- The reasons that class TxMempoolValidator of src/tsarchain/mempool/validation.py leaves in
-- `last_error_reason`, and the outcome of its checks.
use graffiti_protocol.Base.{◌≡◌, refl, ◌⊎◌, inl, inr, ℕ, Bool, true, false, Option, none, some}

pub data Refusal : Type 0 where
  without_reason : Refusal
  tx_vsize_exceeds_limit : Refusal
  tx_vsize_below_min : Refusal
  tx_weight_exceeds_limit : Refusal
  tx_weight_below_min : Refusal
  tx_inputs_exceed_limit : Refusal
  tx_outputs_exceed_limit : Refusal
  graffiti_opreturn_too_large : Refusal
  graffiti_payload_invalid : Refusal
  graffiti_size_invalid : Refusal
  graffiti_size_exceeds_limit : Refusal
  graffiti_duplicate_post : Refusal
  graffiti_comment_empty : Refusal
  graffiti_comment_too_large : Refusal
  graffiti_comment_fee_too_low : Refusal
  graffiti_comment_tip_negative : Refusal
  graffiti_post_fee_insufficient : Refusal
  mempool_graffiti_full : Refusal
  payout_bad_art_id : Refusal
  payout_unknown_art : Refusal
  payout_epoch_rewind : Refusal
  payout_missing_proof : Refusal
  payout_no_recipients : Refusal
  payout_bad_recipient : Refusal
  payout_recipient_mismatch : Refusal
  payout_shortfall : Refusal
  payout_exceeds_pool : Refusal
  missing_prevout : Refusal
  payout_prev_not_pool : Refusal
  payout_wrong_pool : Refusal
  payout_fee_negative : Refusal
  native_reject : Option ℕ → Refusal
  native_mempool_failed : Refusal

-- True with a result, False with a reason, or an exception.
pub data Answer {ℓ} (A : Type ℓ) : Type ℓ where
  accepted : A → Answer A
  rejected : Refusal → Answer A
  raised : Answer A

infixl 5 ◌>>=◌ ◌>>◌
abbrev pub ◌>>=◌ {ℓ κ} : {A : Type ℓ} {B : Type κ} → Answer A → (A → Answer B) → Answer B
accepted a >>= f = f a
rejected r >>= f = rejected r
raised >>= f = raised

abbrev pub ◌>>◌ {ℓ} : {B : Type ℓ} → Answer (Unit {0}) → Answer B → Answer B
m >> k = m >>= λ _. k

-- A test, and the reason when it does not hold.
abbrev pub ensure : Bool → Refusal → Answer (Unit {0})
ensure true r = accepted tt
ensure false r = rejected r

-- A value, or an exception where there is none.
abbrev pub or_raise {ℓ} : {A : Type ℓ} → Option A → Answer A
or_raise none = raised
or_raise (some a) = accepted a

pub >>=-accepted {ℓ κ} :
    {A : Type ℓ} {B : Type κ} (m : Answer A) (f : A → Answer B) (b : B)
    → (m >>= f) ≡ accepted b
    → (a : A) × (m ≡ accepted a) × (f a ≡ accepted b)
>>=-accepted (accepted a) f b h = (a, refl, h)
>>=-accepted (rejected r) f b h = cc
>>=-accepted raised f b h = cc

pub ensure-accepted {ℓ} :
    {B : Type ℓ} (c : Bool) (r : Refusal) (k : Answer B) (b : B)
    → (ensure c r >> k) ≡ accepted b
    → (c ≡ true) × (k ≡ accepted b)
ensure-accepted true r k b h = (refl, h)
ensure-accepted false r k b h = cc

pub Answer-cases {ℓ} :
    {A : Type ℓ} (m : Answer A)
    → ((a : A) × (m ≡ accepted a)) ⊎ ((r : Refusal) × (m ≡ rejected r)) ⊎ (m ≡ raised)
Answer-cases (accepted a) = inl (a, refl)
Answer-cases (rejected r) = inr (inl (r, refl))
Answer-cases raised = inr (inr refl)
