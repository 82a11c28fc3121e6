-- ===== src/Graffiti/Tests.antt =====
-- A pool of two outputs that pays one recipient.
use graffiti_protocol.Base.{
  ◌+◌, ◌≡◌, refl, arith, true, false, List, [], ◌∷◌, none, some, sort_by, insert_by, pos,
}
use graffiti_protocol.Ledger.{Tx, TxOut}
use graffiti_protocol.Script.{serialize, encode_pushdata}
use graffiti_protocol.Graffiti.Payload.{Text, normalize_art_id}
use graffiti_protocol.Graffiti.Payer.{
  PoolUtxo, Recipients, PayerTools, Request, build_inputs, build_opret, estimate_fee, spend_pool,
  select_utxos, payout_select_utxos, pay_from, format_each, validate_and_format_recipients,
  add_proof, build_payout_metadata, build_script, build_payout_tx,
}
use graffiti_protocol.Graffiti.Balanced.{IsBalanced}
use graffiti_protocol.Graffiti.Payouts.{build_payout_tx-IsPayout}
use graffiti_protocol.Graffiti.Payouts.Shape.{IsPayout}
use graffiti_protocol.Graffiti.Selection.{payout_select_utxos_ends}

abbrev texts : Text
texts = record {
  magic = 71 ∷ [];
  read_json = λ raw. none;
  clean = λ s. s;
  upper = λ s. s;
  size_of = λ s. 64;
  hex_size = λ s. some s;
  int_text = λ s. some (pos s);
  int_other = λ s. none;
  str_number = λ n. 100;
  str_other = λ s. s;
  str_null = 0;
  is_true = λ s. true;
  is_sha256_hex = λ s. true;
  is_mime = λ s. true;
  is_address = λ s. true;
  is_art_id = λ s. true;
  has_prefix = λ s. false;
  is_prefixed_id = λ s. false;
  is_hex64 = λ s. true;
  decorate = λ s. s;
  art_hash = λ sha creator. sha + creator;
  t_post = 200;
  t_comment = 201;
  t_payout = 202;
}

abbrev tools : PayerTools
tools = record {
  texts = texts;
  art_digest = λ art_id. art_id ∷ [];
  redeem_script = λ art_id. art_id ∷ [];
  pool_spk = λ art_id. 0 ∷ 0x20 ∷ art_id ∷ [];
  p2wpkh_script = λ address. 0 ∷ 0x14 ∷ address ∷ [];
  dumps = λ meta. [];
  txid_of = λ inputs outputs. 61;
  vsize = λ inputs outputs. 150;
}

abbrev request : Request
request = record { art_id = 5; epoch = 3; proof_fields = []; rate = 1; dust = 500 }

abbrev small : PoolUtxo
small = record { txid = 1; vout = 0; amount = 1000 }

abbrev large : PoolUtxo
large = record { txid = 2; vout = 0; amount = 3000 }

abbrev opret : TxOut
opret = record { amount = 0; script_pubkey = 0x6A ∷ 1 ∷ 71 ∷ [] }

abbrev outs : List TxOut
outs =
    record { amount = 1350; script_pubkey = 0 ∷ 0x20 ∷ 5 ∷ [] }
    ∷ record { amount = 1500; script_pubkey = 0 ∷ 0x14 ∷ 9 ∷ [] }
    ∷ opret
    ∷ []

builds :
    build_payout_tx tools request (small ∷ large ∷ []) ((9, 1500) ∷ [])
    ≡ some (spend_pool tools request (large ∷ []) outs, large ∷ [])
unfolding build_payout_tx validate_and_format_recipients format_each sort_by insert_by pay_from
    payout_select_utxos select_utxos estimate_fee build_opret build_payout_metadata normalize_art_id
    add_proof build_script serialize encode_pushdata
builds = refl

build_payout_tx-IsPayout_example :
    (rec_list : Recipients) × (validate_and_format_recipients texts ((9, 1500) ∷ [])
      ≡ some rec_list)
    × IsPayout tools request
        (small ∷ large ∷ [])
        rec_list
        (spend_pool tools request (large ∷ []) outs)
        (large ∷ [])
build_payout_tx-IsPayout_example =
    build_payout_tx-IsPayout tools request (small ∷ large ∷ []) ((9, 1500) ∷ [])
      (spend_pool tools request (large ∷ []) outs) (large ∷ []) (omega arith) builds

notes : build_opret tools request ((9, 3500) ∷ []) ≡ some opret
unfolding build_opret build_payout_metadata validate_and_format_recipients format_each
    normalize_art_id add_proof build_script serialize encode_pushdata
notes = refl

estimates : estimate_fee tools request (large ∷ small ∷ []) false ((9, 3500) ∷ []) ≡ some 150
unfolding estimate_fee build_opret build_payout_metadata validate_and_format_recipients format_each
    normalize_art_id add_proof build_script serialize encode_pushdata build_inputs
estimates = refl

payout_select_utxos_ends_example :
    (tx : Tx) × (spent : List PoolUtxo) × (payout_select_utxos tools request
        (large ∷ small ∷ [])
        ((9, 3500) ∷ [])
      ≡ some (tx, spent))
    × IsBalanced tools request tx spent
payout_select_utxos_ends_example =
    payout_select_utxos_ends tools request large (small ∷ []) ((9, 3500) ∷ []) opret 150 notes
      estimates (omega arith)
