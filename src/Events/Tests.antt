-- ===== src/Events/Tests.antt =====
-- A comment with a time that is no number, a payout that pays more than its pool, and the results on
-- them.
use graffiti_protocol.Base.{
  ℕ, zero, suc, ◌≡◌, refl, ◌≢◌, inl, true, any, ltb, arith, List, [], ◌∷◌, none, some, pos, length,
}
use graffiti_protocol.Ledger.{TxOut}
use graffiti_protocol.Script.{Bytes, is_p2wpkh, is_p2wsh}
use graffiti_protocol.Registry.{
  get_post, get_latest_proof_epoch, get_latest_proof, of_storer, sort_desc, insert_desc, get_proof,
  find_proof,
}
use graffiti_protocol.Graffiti.{
  number, text, Meta, plain, proof, k_art_id, k_epoch, int_or, int_of, truthy, str_of,
}
use graffiti_protocol.Validation.{
  Addresses, validate_single_payout, text_field, read_int, validate_payout_proof, has_proof,
  proof_epoch_of, valid_storer, proof_storer_of, storer_of_entry, paymap_of, spk_to_address, passed,
}
use graffiti_protocol.Validation.Tests.{texts}
use graffiti_protocol.Validation.PayoutTests.{art, with_art}
use graffiti_protocol.Events.Record.{handle_payout}
use graffiti_protocol.Validation.Payable.{paid_by, IsCoveredBy}
use graffiti_protocol.Events.Overpaid.{overpaid_payout_not_recorded}

abbrev addresses : Addresses
addresses = record { bech32 = length; pool_of = λ art_id. art_id }

abbrev balance : ℕ → ℕ
balance addr = 100

abbrev repeat : ℕ → Bytes
repeat zero = []
repeat (suc n) = 7 ∷ repeat n

-- 150 to the address 20, where 40 are asked for and the pool has 100.
abbrev outputs : List TxOut
outputs = record { amount = 150; script_pubkey = 0 ∷ 0x14 ∷ repeat 20 } ∷ []

abbrev generous : Meta
generous = record {
  fields =
      (plain k_art_id, text 5) ∷ (plain k_epoch, number (pos 3)) ∷ (proof k_epoch, text 103) ∷ [];
  raw_recipients = none;
  recipients = (20, 40) ∷ [];
}

known_art : get_post (text_field texts k_art_id generous) with_art ≡ some art
unfolding get_post text_field truthy str_of
known_art = refl

is_named : text_field texts k_art_id generous ≢ 0
unfolding text_field truthy str_of
is_named = ground arith

covered :
    IsCoveredBy texts generous
      (paid_by texts length outputs)
      with_art
      (text_field texts k_art_id generous)
      art
      (pos 3)
unfolding text_field truthy str_of int_or int_of validate_payout_proof has_proof proof_epoch_of
    read_int get_latest_proof_epoch get_latest_proof of_storer sort_desc insert_desc valid_storer
    proof_storer_of storer_of_entry get_proof find_proof spk_to_address is_p2wpkh is_p2wsh
covered = (
  refl,
  omega arith,
  refl,
  (λ q. ground arith),
  ((λ q. ground arith), omega arith, inl refl, omega arith, tt),
  omega arith,
)

overpays :
    any (λ r. ltb 100 (paid_by texts length outputs (texts.clean r.0))) generous.recipients ≡ true
unfolding spk_to_address is_p2wpkh is_p2wsh
overpays = refl

overpaid_payout_not_recorded_example :
    (validate_single_payout texts generous (paymap_of texts length outputs []) with_art ≡ passed tt)
    × (handle_payout texts 9 addresses balance generous outputs 70 1 with_art ≡ some with_art)
overpaid_payout_not_recorded_example =
    overpaid_payout_not_recorded texts 9 addresses balance generous outputs 70 1 art (pos 3)
      with_art is_named known_art covered overpays
