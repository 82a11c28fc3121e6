-- ===== src/Mempool/Rules/Tests.antt =====
-- A payout of the epoch 3 from the pool of the art 5, and one that names its input twice.
use graffiti_protocol.Base.{
  ℕ, ◌+◌, ◌-◌, ◌≡◌, refl, arith, false, List, [], ◌∷◌, ◌++◌, none, length, pos, nat_key, pair_key,
}
use graffiti_protocol.Ledger.{Tx, TxIn, TxOut}
use graffiti_protocol.Script.{Bytes, is_p2wpkh, is_p2wsh}
use graffiti_protocol.Utxo.{Utxos}
use graffiti_protocol.Registry.{
  get_post, get_proof, find_proof, get_latest_proof_epoch, get_latest_proof, of_storer, sort_desc,
  insert_desc,
}
use graffiti_protocol.Graffiti.{
  Meta, number, text, plain, proof, k_art_id, k_epoch, int_or, int_of, str_of, str_or_empty, truthy,
}
use graffiti_protocol.Validation.{
  paymap_of, spk_to_address, has_proof, is_rewind, valid_storer, proof_storer_of, storer_of_entry,
}
use graffiti_protocol.Validation.Tests.{texts}
use graffiti_protocol.Validation.PayoutTests.{with_art}
use graffiti_protocol.Mempool.Rules.Outcome.{accepted}
use graffiti_protocol.Mempool.Rules.Graffiti.{clean_field}
use graffiti_protocol.Mempool.Rules.Payout.{
  bytes_eqb, lookup_utxo_entry, check_pool_entry, check_pool_inputs, validate_payout_inputs,
  ensure_recipients, check_paid, ensure_proof, claimed_proof_epoch, validate_payout_art_and_epoch,
  validate_payout_recipients_and_balance, validate_payout_tx,
}
use graffiti_protocol.Mempool.Rules.Doubled.{validate_payout_inputs-doubled}
use graffiti_protocol.Mempool.Rules.Funded.{IsFunded, validate_payout_tx-IsFunded}

abbrev ten : Bytes
ten = 1 ∷ 1 ∷ 1 ∷ 1 ∷ 1 ∷ 1 ∷ 1 ∷ 1 ∷ 1 ∷ 1 ∷ []

abbrev program : Bytes
program = 1 ∷ 1 ∷ ten ++ (ten ++ ten)

-- The address of 20 bytes is 20.
abbrev pay : ℕ → TxOut
pay n = record { amount = n; script_pubkey = 0 ∷ 0x14 ∷ ten ++ ten }

abbrev utxos : Utxos
utxos =
    (
      (60, 0),
      record {
        tx_out = record { amount = 100; script_pubkey = 0 ∷ 0x20 ∷ program };
        is_coinbase = false;
        block_height = 0;
      },
    )
    ∷ []

abbrev input : TxIn
input = record { prev_txid = 60; vout = 0; script_sig = []; witness = [] }

abbrev tx_of : List TxIn → List TxOut → Tx
tx_of inputs outputs = record {
  txid = 61;
  is_coinbase = false;
  inputs = inputs;
  outputs = outputs;
  fee = 0;
  block_id = none;
}

abbrev payout_tx : Tx
payout_tx = tx_of (input ∷ []) (pay 40 ∷ [])

abbrev claim : Meta
claim = record {
  fields =
      (plain k_art_id, text 5) ∷ (plain k_epoch, number (pos 3)) ∷ (proof k_epoch, text 103) ∷ [];
  raw_recipients = none;
  recipients = (20, 40) ∷ [];
}

abbrev pool_hash : ℕ → Bytes
pool_hash art_id = program

accepts : validate_payout_tx texts length pool_hash payout_tx claim with_art utxos [] ≡ accepted 60
unfolding validate_payout_tx validate_payout_art_and_epoch clean_field str_or_empty str_of get_post
    int_or int_of is_rewind ensure_proof claimed_proof_epoch has_proof get_latest_proof_epoch
    get_latest_proof of_storer sort_desc insert_desc validate_payout_recipients_and_balance
    ensure_recipients valid_storer proof_storer_of truthy storer_of_entry get_proof find_proof
    paymap_of spk_to_address is_p2wpkh is_p2wsh check_paid validate_payout_inputs check_pool_inputs
    lookup_utxo_entry check_pool_entry bytes_eqb
accepts = refl

validate_payout_tx-IsFunded_example :
    IsFunded texts length pool_hash payout_tx claim with_art utxos [] 60
validate_payout_tx-IsFunded_example =
    validate_payout_tx-IsFunded texts length pool_hash payout_tx claim with_art utxos [] 60 accepts

once : check_pool_inputs program utxos [] (input ∷ []) 0 ≡ accepted 100
unfolding check_pool_inputs lookup_utxo_entry check_pool_entry bytes_eqb is_p2wsh
once = refl

validate_payout_inputs-doubled_example :
    validate_payout_inputs program utxos [] (tx_of (input ∷ input ∷ []) (pay 150 ∷ []))
    ≡ accepted (100 + 100 - 150)
validate_payout_inputs-doubled_example =
    validate_payout_inputs-doubled program utxos [] (tx_of (input ∷ input ∷ []) (pay 150 ∷ []))
      (input ∷ []) 100 once refl (omega arith)
