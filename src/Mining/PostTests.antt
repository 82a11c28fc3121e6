-- ===== src/Mining/PostTests.antt =====
-- A transaction with one post, and one with two.
use graffiti_protocol.Base.{
  ◌≡◌, ◌≢◌, refl, arith, false, List, [], ◌∷◌, none, some, pos, pair_key, nat_key,
}
use graffiti_protocol.Ledger.{Tx, TxOut, Block}
use graffiti_protocol.Script.{
  Bytes, serialize, encode_pushdata, read_opreturn_payload, first_push, is_p2wpkh, is_p2wsh,
}
use graffiti_protocol.Registry.{get_post}
use graffiti_protocol.Difficulty.{calculate_expected_bits}
use graffiti_protocol.Graffiti.{
  Text, Meta, number, text, plain, k_sha256, k_size, k_mime, k_storer, k_receipt, k_creator,
  parse_from_script, parse_payload, parse_event, event_of, starts_with, parse_post_payload, is_text,
  absent_or, size_field, set_post_art_id, post_art_id, parse_post_merkle, truthy, str_of, int_of,
  int_or, calc_upload_fee_sats,
}
use graffiti_protocol.Validation.{
  passed, Tally, tally_outputs, check_output_post, check_post, post_id, text_field, is_duplicate,
  min_fee_of, paid_to, pays_to, spk_to_address, count_post, validate_graffiti_posts,
}
use graffiti_protocol.Validation.Tests.{texts, registry}
use graffiti_protocol.Node.{weighed}
use graffiti_protocol.Node.Tests.{native, genesis}
use graffiti_protocol.Mining.Posts.{
  is_graffiti_post, select_graffiti_art_id, first_paid, paid_id_of, paid_id,
}
use graffiti_protocol.Mining.Template.{
  apply_tx_to_utxoset, remove_prevouts, insert_outputs, note_used, collect, coinbase_block_id,
  coinbase_tx, int_to_le_bytes, le_bytes, assemble, build_candidate_block,
}
use graffiti_protocol.Mining.Agreed.{zero_tally, HaveOnePost, candidate-posts_agree}
use graffiti_protocol.Mining.TwoPosts.{two_posts_mined}
use graffiti_protocol.Mining.Tests.{coinbases, addresses, accepts_all, mined_coinbase}

-- A post of the file 20 by the address 12; its art id is 32.
abbrev art : Meta
art = record {
  fields =
      (plain k_sha256, text 20)
      ∷ (plain k_size, number (pos 1000))
      ∷ (plain k_mime, text 1)
      ∷ (plain k_storer, text 2)
      ∷ (plain k_receipt, text 3)
      ∷ (plain k_creator, text 12)
      ∷ [];
  raw_recipients = none;
  recipients = [];
}

abbrev pub post_texts : Text
post_texts = record texts { read_json = λ raw. some art }

abbrev post_output : TxOut
post_output = record { amount = 0; script_pubkey = 0x6A ∷ 2 ∷ 71 ∷ 1 ∷ [] }

abbrev program : Bytes
program =
    1 ∷ 1 ∷ 1 ∷ 1 ∷ 1 ∷ 1 ∷ 1 ∷ 1 ∷ 1 ∷ 1 ∷ 1 ∷ 1 ∷ 1 ∷ 1 ∷ 1 ∷ 1 ∷ 1 ∷ 1 ∷ 1 ∷ 1 ∷ 1 ∷ 1 ∷ 1 ∷ 1
    ∷ 1 ∷ 1 ∷ 1 ∷ 1 ∷ 1 ∷ 1 ∷ 1 ∷ 1 ∷ []

abbrev pool_output : TxOut
pool_output = record { amount = 80000000; script_pubkey = 0 ∷ 0x20 ∷ program }

abbrev tx_of : List TxOut → Tx
tx_of outputs = record {
  txid = 50;
  is_coinbase = false;
  inputs = record { prev_txid = 40; vout = 0; script_sig = []; witness = [] } ∷ [];
  outputs = outputs;
  fee = 0;
  block_id = none;
}

abbrev pub one : Tx
one = tx_of (post_output ∷ pool_output ∷ [])

abbrev two : Tx
two = tx_of (post_output ∷ post_output ∷ pool_output ∷ [])

abbrev taken : Tx → Tx
taken tx = record tx { fee = 7 }

abbrev one_counted : Tally
one_counted = record { posts = 1; first_art_id = 32 }

abbrev two_counted : Tally
two_counted = record { posts = 2; first_art_id = 32 }

counts_one :
    tally_outputs post_texts addresses registry one.outputs one.outputs zero_tally
    ≡ passed one_counted
unfolding tally_outputs check_output_post check_post is_duplicate get_post count_post
    parse_from_script read_opreturn_payload first_push parse_payload starts_with parse_event
    event_of parse_post_payload is_text absent_or size_field set_post_art_id post_art_id
    parse_post_merkle truthy str_of int_of int_or post_id text_field min_fee_of paid_to pays_to
    spk_to_address is_p2wpkh is_p2wsh calc_upload_fee_sats
counts_one = refl

counts_two :
    tally_outputs post_texts addresses registry two.outputs two.outputs zero_tally
    ≡ passed two_counted
unfolding tally_outputs check_output_post check_post is_duplicate get_post count_post
    parse_from_script read_opreturn_payload first_push parse_payload starts_with parse_event
    event_of parse_post_payload is_text absent_or size_field set_post_art_id post_art_id
    parse_post_merkle truthy str_of int_of int_or post_id text_field min_fee_of paid_to pays_to
    spk_to_address is_p2wpkh is_p2wsh calc_upload_fee_sats
counts_two = refl

abbrev post_coinbase : Tx
post_coinbase = record mined_coinbase {
  inputs =
      record { prev_txid = 0; vout = 0xFFFFFFFF; script_sig = 1 ∷ 1 ∷ 1 ∷ 32 ∷ []; witness = [] }
      ∷ [];
  block_id = some 32;
}

abbrev block_with : Tx → Block
block_with tx = record {
  height = 1;
  prev_block_hash = 1;
  merkle_root = 2;
  timestamp = 1000;
  bits = calculate_expected_bits (genesis ∷ []) 1;
  nonce = 0;
  transactions = post_coinbase ∷ taken tx ∷ [];
  chainwork = none;
  difficulty = 0;
}

takes_one : collect post_texts addresses accepts_all (one ∷ []) [] [] false ≡ some (taken one ∷ [])
unfolding collect is_graffiti_post first_paid paid_id_of paid_id note_used apply_tx_to_utxoset
    remove_prevouts insert_outputs parse_from_script read_opreturn_payload first_push parse_payload
    starts_with parse_event event_of parse_post_payload is_text absent_or size_field set_post_art_id
    post_art_id parse_post_merkle truthy str_of int_of int_or post_id text_field min_fee_of paid_to
    pays_to spk_to_address is_p2wpkh is_p2wsh calc_upload_fee_sats
takes_one = refl

builds_one :
    build_candidate_block coinbases native post_texts addresses accepts_all 9 25000000000
      (genesis ∷ [])
      []
      (one ∷ [])
    ≡ some (block_with one)
unfolding build_candidate_block assemble collect is_graffiti_post first_paid paid_id_of paid_id
    select_graffiti_art_id coinbase_tx coinbase_block_id int_to_le_bytes le_bytes serialize
    encode_pushdata note_used apply_tx_to_utxoset remove_prevouts insert_outputs weighed
    parse_from_script read_opreturn_payload first_push parse_payload starts_with parse_event
    event_of parse_post_payload is_text absent_or size_field set_post_art_id post_art_id
    parse_post_merkle truthy str_of int_of int_or post_id text_field min_fee_of paid_to pays_to
    spk_to_address is_p2wpkh is_p2wsh calc_upload_fee_sats
builds_one = refl

builds_two :
    build_candidate_block coinbases native post_texts addresses accepts_all 9 25000000000
      (genesis ∷ [])
      []
      (two ∷ [])
    ≡ some (block_with two)
unfolding build_candidate_block assemble collect is_graffiti_post first_paid paid_id_of paid_id
    select_graffiti_art_id coinbase_tx coinbase_block_id int_to_le_bytes le_bytes serialize
    encode_pushdata note_used apply_tx_to_utxoset remove_prevouts insert_outputs weighed
    parse_from_script read_opreturn_payload first_push parse_payload starts_with parse_event
    event_of parse_post_payload is_text absent_or size_field set_post_art_id post_art_id
    parse_post_merkle truthy str_of int_of int_or post_id text_field min_fee_of paid_to pays_to
    spk_to_address is_p2wpkh is_p2wsh calc_upload_fee_sats
builds_two = refl

one-HaveOnePost : HaveOnePost post_texts addresses registry (taken one ∷ [])
one-HaveOnePost = ((one_counted, counts_one, omega arith), tt)

candidate-posts_agree_example :
    (cb : Tx) × ((block_with one).transactions ≡ cb ∷ taken one ∷ [])
    × (validate_graffiti_posts post_texts addresses registry cb (taken one ∷ []) ≡ none)
candidate-posts_agree_example =
    candidate-posts_agree post_texts addresses registry coinbases native accepts_all 9 25000000000
      (genesis ∷ []) [] (one ∷ []) (taken one ∷ []) (block_with one) takes_one one-HaveOnePost
      (λ art_id found there. refl) builds_one

two_posts_mined_example :
    (cb : Tx) × (txs : List Tx) × ((block_with two).transactions ≡ cb ∷ taken two ∷ txs)
    × (validate_graffiti_posts post_texts addresses registry cb (taken two ∷ txs) ≢ none)
two_posts_mined_example =
    two_posts_mined post_texts addresses registry coinbases native accepts_all 9 25000000000 7
      (genesis ∷ []) [] two [] two_counted (block_with two) refl counts_two (omega arith) builds_two
