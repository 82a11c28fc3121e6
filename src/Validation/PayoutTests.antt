-- ===== src/Validation/PayoutTests.antt =====
-- A payout, and the results on it.
use graffiti_protocol.Base.{List, ◌≡◌, refl, [], ◌∷◌, none, some, ℤ, pos, pair_key}
use graffiti_protocol.Graffiti.{
  number, text, Meta, plain, proof, k_art_id, k_epoch, parse_payout_payload,
  parse_payout_recipients, parse_payout_items, parse_payout_recipient, parse_payout_proof_hints,
  parse_proof_hints, hint_source, hint_value, str_or_empty, str_of, int_of, int_or, truthy,
  normalize_art_id,
}
use graffiti_protocol.Registry.{
  Post, Registry, get_post, get_latest_proof_epoch, get_latest_proof, of_storer, sort_desc,
  insert_desc, get_proof, find_proof,
}
use graffiti_protocol.Validation.Reason.{passed}
use graffiti_protocol.Validation.Posts.{spk_to_address, text_field}
use graffiti_protocol.Validation.Payouts.{
  validate_single_payout, paymap_of, validate_payout_proof, check_payout_of, read_int, is_rewind,
  has_proof, proof_epoch_of, require_recipients, valid_storer, proof_storer_of, storer_of_entry,
  check_recipients,
}
use graffiti_protocol.Validation.Payable.{paid_by, IsCoveredBy, validate_single_payout-IsCoveredBy}
use graffiti_protocol.Ledger.{TxOut}
use graffiti_protocol.Script.{is_p2wpkh, is_p2wsh}
use graffiti_protocol.Validation.Unproved.{unproved_payout_passes}
use graffiti_protocol.Validation.Tests.{texts, registry}

-- A payout of 40 to the address 9, for the third epoch of the art 5, without a proof.
abbrev claim : Meta
claim = record {
  fields = (plain k_art_id, text 5) ∷ (plain k_epoch, number (pos 3)) ∷ [];
  raw_recipients =
      some (some (record { addr = some (text 9); amount = some (number (pos 40)) }) ∷ []);
  recipients = [];
}

abbrev claimed : Meta
claimed = record {
  fields =
      (plain k_art_id, text 5) ∷ (plain k_epoch, number (pos 3)) ∷ (proof k_epoch, text 103) ∷ [];
  raw_recipients =
      some (some (record { addr = some (text 9); amount = some (number (pos 40)) }) ∷ []);
  recipients = (9, 40) ∷ [];
}

parses : parse_payout_payload texts claim ≡ some claimed
unfolding parse_payout_payload parse_payout_recipients parse_payout_items parse_payout_recipient
    parse_payout_proof_hints parse_proof_hints hint_source hint_value str_or_empty str_of int_of
    int_or normalize_art_id
parses = refl

abbrev pub art : Post
art = record {
  sha256 = 1;
  mroot = 2;
  creator = 3;
  txid = 30;
  block_height = 0;
  pool_address = 5;
  amount_paid = 100;
  block_hash = none;
  ts = 0;
  stats = record {
    pool_balance = 100;
    creator_paid = 0;
    storage_paid = 0;
    comments = 0;
    last_paid_epoch = some 2;
  };
}

abbrev pub with_art : Registry
with_art = record registry { posts = (5, art) ∷ [] }

unproved_payout_passes_example : validate_payout_proof texts claimed 3 5 with_art ≡ passed tt
unproved_payout_passes_example =
    unproved_payout_passes texts (pos 3) claim claimed 5 with_art refl refl refl parses

-- 40 to the address 9, which every script has.
abbrev paying : List TxOut
paying =
    record {
      amount = 40;
      script_pubkey =
          0 ∷ 0x14 ∷ 1 ∷ 1 ∷ 1 ∷ 1 ∷ 1 ∷ 1 ∷ 1 ∷ 1 ∷ 1 ∷ 1 ∷ 1 ∷ 1 ∷ 1 ∷ 1 ∷ 1 ∷ 1 ∷ 1 ∷ 1 ∷ 1 ∷ 1
          ∷ [];
    }
    ∷ []

payable :
    validate_single_payout texts claimed (paymap_of texts (λ program. 9) paying []) with_art
    ≡ passed tt
unfolding validate_single_payout check_payout_of text_field truthy str_of get_post read_int int_or
    int_of is_rewind validate_payout_proof has_proof proof_epoch_of get_latest_proof_epoch
    get_latest_proof of_storer sort_desc insert_desc require_recipients valid_storer proof_storer_of
    storer_of_entry get_proof find_proof check_recipients paymap_of spk_to_address is_p2wpkh
    is_p2wsh
payable = refl

validate_single_payout-IsCoveredBy_example :
    (p : Post) × (epoch : ℤ) × (get_post (text_field texts k_art_id claimed) with_art ≡ some p)
    × IsCoveredBy texts claimed
        (paid_by texts (λ program. 9) paying)
        with_art
        (text_field texts k_art_id claimed)
        p
        epoch
validate_single_payout-IsCoveredBy_example =
    validate_single_payout-IsCoveredBy texts (λ program. 9) claimed paying with_art payable
