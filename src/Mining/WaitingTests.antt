-- ===== src/Mining/WaitingTests.antt =====
-- A post while as many wait as may.
use graffiti_protocol.Base.{◌≡◌, refl, ℕ, map, true, List, [], ◌∷◌, none, some, pair_key, nat_key}
use graffiti_protocol.Ledger.{Tx}
use graffiti_protocol.Script.{
  last_pushdata, last_pushed, is_push, parse_ops, parse_ops_from, read_push, read_opreturn_payload,
  first_push, is_p2wpkh, is_p2wsh,
}
use graffiti_protocol.Registry.{get_post}
use graffiti_protocol.Graffiti.{
  parse_from_script, parse_payload, parse_event, event_of, starts_with, parse_post_payload, is_text,
  absent_or, size_field, set_post_art_id, post_art_id, parse_post_merkle, truthy, str_of,
  str_or_empty, int_of, int_or, calc_upload_fee_sats,
}
use graffiti_protocol.Validation.{compute_tx_weight_vsize, paid_to, pays_to, spk_to_address}
use graffiti_protocol.Validation.Tests.{registry}
use graffiti_protocol.Node.Tests.{library, empty_pool}
use graffiti_protocol.Mempool.{TxPool, prevouts_of, owners_of, add_tx}
use graffiti_protocol.Mempool.Rules.{
  Library, accepted, rejected, mempool_graffiti_full, check_pool_fee,
  has_exceeded_mempool_post_limit, count_posts, verdict, add_checked_tx, posts_unlimited,
  enforce_mempool_post_limit, check_named_post, named_id, clean_field, is_same_file, is_posted,
  posts_same, is_waiting, find_meta, post_of, validate_transaction, validate_tx_basic_guards,
  check_graffiti_outputs, check_pushed, check_event_output, check_post_output, find_payout_meta,
  payout_meta_of, validate_natively, utxo_items, check_incoming, caught,
}
use graffiti_protocol.Mining.Tests.{addresses}
use graffiti_protocol.Mining.PostTests.{one, post_texts}

-- The post in a transaction of its own.
abbrev posted : ℕ → Tx
posted n = record one {
  txid = n;
  inputs = record { prev_txid = n; vout = 0; script_sig = []; witness = [] } ∷ [];
}

-- As many posts as may wait.
abbrev waiting_ids : List ℕ
waiting_ids = 61 ∷ 62 ∷ 63 ∷ 64 ∷ 65 ∷ 66 ∷ 67 ∷ []

abbrev full_pool : TxPool
full_pool = record empty_pool {
  pool = map (λ n. (n, posted n)) waiting_ids;
  prevout_index = map (λ n. ((n, 0), n)) waiting_ids;
  tx_prevouts = map (λ n. (n, (n, 0) ∷ [])) waiting_ids;
}

abbrev post_library : Library
post_library = record library { texts = post_texts; addresses = addresses }

passes_alone : verdict post_library registry [] 0 (posted 51) [] ≡ accepted 7
unfolding validate_transaction validate_tx_basic_guards compute_tx_weight_vsize
    check_graffiti_outputs check_pushed check_event_output check_post_output find_payout_meta
    find_meta payout_meta_of validate_natively utxo_items check_incoming caught last_pushdata
    last_pushed is_push parse_ops parse_ops_from read_push named_id clean_field str_or_empty
    is_posted is_same_file get_post parse_from_script read_opreturn_payload first_push parse_payload
    starts_with parse_event event_of parse_post_payload is_text absent_or size_field set_post_art_id
    post_art_id parse_post_merkle truthy str_of int_of int_or
passes_alone = refl

-- Without a height the check would refuse it.
refused_without_height :
    validate_transaction post_library
      (record { registry = registry; pool = map posted waiting_ids; store = []; tip_height = 0 })
      (posted 51)
      []
      none
    ≡ rejected mempool_graffiti_full
unfolding validate_transaction validate_tx_basic_guards compute_tx_weight_vsize
    check_graffiti_outputs check_pushed check_event_output check_post_output find_payout_meta
    find_meta payout_meta_of validate_natively utxo_items check_incoming caught last_pushdata
    last_pushed is_push parse_ops parse_ops_from read_push named_id clean_field str_or_empty
    is_posted is_same_file get_post parse_from_script read_opreturn_payload first_push parse_payload
    starts_with parse_event event_of parse_post_payload is_text absent_or size_field set_post_art_id
    post_art_id parse_post_merkle truthy str_of int_of int_or enforce_mempool_post_limit
    check_named_post posts_same is_waiting post_of paid_to pays_to spk_to_address is_p2wpkh is_p2wsh
    calc_upload_fee_sats check_pool_fee has_exceeded_mempool_post_limit count_posts
refused_without_height = refl

posts_unlimited_example :
    add_checked_tx post_library registry [] 0 (λ _. 100) (posted 51) 1 full_pool
    ≡ some (add_tx (λ _. 100) (record (posted 51) { fee = 7 }) 1 full_pool, true)
posts_unlimited_example =
    posts_unlimited post_library registry [] 0 (λ _. 100) (posted 51) 1 7 full_pool passes_alone
      refl (unfold prevouts_of owners_of in refl)
