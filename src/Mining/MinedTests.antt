-- ===== src/Mining/MinedTests.antt =====
-- A block with one transaction, from the mempool to the chain.
use graffiti_protocol.Base.{
  ℕ, ◌≡◌, refl, false, true, [], ◌∷◌, none, some, pair_key, nat_key, sort_by, insert_by,
}
use graffiti_protocol.Ledger.{Block}
use graffiti_protocol.Script.{
  serialize, encode_pushdata, parse_ops, parse_ops_from, read_push, is_push, last_pushed,
  last_pushdata, is_p2wpkh, is_p2wsh, read_opreturn_payload, first_push,
}
use graffiti_protocol.Utxo.{update, apply_native_ops, apply_ops, bump_version, record_events}
use graffiti_protocol.Compact.{bits_to_target}
use graffiti_protocol.Difficulty.{
  calculate_expected_bits, expected_bits_on_prefix, median_time_past_of, sorted, insert_sorted,
}
use graffiti_protocol.Difficulty.Work.{work_from_bits, compute_chainwork_for_chain, chainwork_from}
use graffiti_protocol.Chain.Native.{pow_ok, merkle_ok}
use graffiti_protocol.Rewards.{
  scheduled_reward, cumulative_supply_until, supply_loop, get_block_reward,
}
use graffiti_protocol.Graffiti.{parse_from_script}
use graffiti_protocol.Validation.{
  Outside, compute_txids_for_block, check_txid, for_txs, ensure_unique_txids, unique_from,
  check_block_limits, estimate_block_size, validate_chain_context, check_place, check_parent_time,
  validate_difficulty, check_sigops_budget, sigops_budget, sigops_count, input_sigops, prev_script,
  count_sigops_in_script, witness_script, spent_script, compute_tx_weight_vsize,
  validate_tx_guardrails, validate_tx_guardrail, check_sizes, validate_graffiti_outputs,
  validate_graffiti_output, validate_graffiti_payload, validate_graffiti_posts, tally_txs,
  tally_outputs, check_output_post, check_tally, is_block_id, spk_to_address,
  validate_graffiti_payouts, paymap_of, check_outputs_payouts, check_output_payout,
  prepare_tx_snapshot, snapshot_txs, snapshot_inputs, validate_transactions_payload,
  verify_block_fees_and_rewards, fees_of, with_fees, check_alone, validate_graffiti_rules,
  validate_transactions, same_hash, same_token, validate_block_txs, validate_block,
}
use graffiti_protocol.Validation.Tests.{texts}
use graffiti_protocol.Mempool.{
  TxPool, remove_many, remove_each, take_out, drop_tx_prevouts, erase_owned, erase_all,
  remove_fee_record, pop_size, mark_dirty, maybe_flush_after_mutation, drop_conflicts, owners_of,
  spenders_of, flush, prevouts_of,
}
use graffiti_protocol.Mempool.Rules.{
  validate_transaction, validate_tx_basic_guards, check_graffiti_outputs, check_pushed,
  find_payout_meta, find_meta, payout_meta_of, validate_natively, utxo_items, check_incoming,
  caught,
}
use graffiti_protocol.Chain.Links.{is_chain_consistent, links_valid}
use graffiti_protocol.Node.{
  NodeData, weighed, work_below, append_subsequent, append_block, add_block, extract_spent,
  revalidate, drop_stale, reload_if_due, prune_entries, prune_stale_entries,
  prune_mempool_confirmed,
}
use graffiti_protocol.Node.Tests.{
  native, library, build_ops, native_apply, empty_pool, genesis, node, genesis-IsWeighed,
}
use graffiti_protocol.Mining.Posts.{
  is_graffiti_post, select_graffiti_art_id, first_paid, paid_id_of, split_posts,
  fetch_sorted_mempool_txs,
}
use graffiti_protocol.Mining.Template.{
  apply_tx_to_utxoset, remove_prevouts, insert_outputs, note_used, collect, calculate_reward,
  coinbase_block_id, coinbase_tx, int_to_le_bytes, le_bytes, assemble, build_candidate_block,
}
use graffiti_protocol.Mining.Miner.{
  Tools, validate_chain_state, is_stale_block, candidate, validate_and_add_block, submit,
  mine_block,
}
use graffiti_protocol.Mining.Mined.{IsAppended, mine_block-IsAppended}
use graffiti_protocol.Mining.Tests.{coinbases, addresses, spend, template}

abbrev outside : Outside
outside = record {
  native = native;
  texts = texts;
  addresses = addresses;
  size = λ w tx. 200;
  count_sigops = λ script. 1;
  native_validate =
      λ txs snapshot height. record { ok = true; reason = none; fees = some (7 ∷ []) };
}

abbrev tools : Tools
tools = record {
  validator = outside;
  library = library;
  coinbases = coinbases;
  build_ops = build_ops;
  native_apply = native_apply;
  search = λ block. some 2;
  received_at = λ tx. 0;
  tip = 0;
  now = 0;
}

abbrev pool : TxPool
pool = record empty_pool {
  pool = (50, spend) ∷ [];
  size_map = (50, 200) ∷ [];
  prevout_index = ((40, 0), 50) ∷ [];
  tx_prevouts = (50, (40, 0) ∷ []) ∷ [];
  current_size = 200;
}

abbrev before : NodeData
before = record node {
  waiting = record node.waiting {
    pool = pool;
    store = record node.waiting.store {
      utxos =
          (
            (40, 0),
            record {
              tx_out = record { amount = 100; script_pubkey = 0x87 ∷ [] };
              is_coinbase = false;
              block_height = 0;
            },
          )
          ∷ [];
    };
  };
}

abbrev found : Block
found = record template { nonce = 2 }

abbrev node_after : NodeData
node_after = record {
  chain = genesis ∷ weighed (work_from_bits genesis.bits) found ∷ [];
  total_blocks = 2;
  waiting = record before.waiting {
    pool = record empty_pool { dirty = true; change_seq = 1 };
    store = record before.waiting.store { version = 1; recorded = (0, 1) ∷ (50, 1) ∷ [] };
    last_prune_version = some 1;
  };
}

mines : mine_block tools 9 0 false before before (genesis ∷ []) ≡ some (some (found, node_after))
unfolding sort_by insert_by serialize encode_pushdata parse_ops parse_ops_from read_push is_push
    last_pushed last_pushdata is_p2wpkh is_p2wsh read_opreturn_payload first_push update
    apply_native_ops apply_ops bump_version record_events bits_to_target calculate_expected_bits
    expected_bits_on_prefix median_time_past_of sorted insert_sorted work_from_bits
    compute_chainwork_for_chain chainwork_from pow_ok merkle_ok scheduled_reward
    cumulative_supply_until supply_loop get_block_reward parse_from_script compute_txids_for_block
    check_txid for_txs ensure_unique_txids unique_from check_block_limits estimate_block_size
    validate_chain_context check_place check_parent_time validate_difficulty check_sigops_budget
    sigops_budget sigops_count input_sigops prev_script count_sigops_in_script witness_script
    spent_script compute_tx_weight_vsize validate_tx_guardrails validate_tx_guardrail check_sizes
    validate_graffiti_outputs validate_graffiti_output validate_graffiti_payload
    validate_graffiti_posts tally_txs tally_outputs check_output_post check_tally is_block_id
    spk_to_address validate_graffiti_payouts paymap_of check_outputs_payouts check_output_payout
    prepare_tx_snapshot snapshot_txs snapshot_inputs validate_transactions_payload
    verify_block_fees_and_rewards fees_of with_fees check_alone validate_graffiti_rules
    validate_transactions same_hash same_token validate_block_txs validate_block remove_many
    remove_each take_out drop_tx_prevouts erase_owned erase_all remove_fee_record pop_size
    mark_dirty maybe_flush_after_mutation drop_conflicts owners_of spenders_of flush prevouts_of
    validate_transaction validate_tx_basic_guards check_graffiti_outputs check_pushed
    find_payout_meta find_meta payout_meta_of validate_natively utxo_items check_incoming caught
    weighed work_below append_subsequent append_block add_block is_chain_consistent links_valid
    extract_spent revalidate drop_stale reload_if_due prune_entries prune_stale_entries
    prune_mempool_confirmed is_graffiti_post select_graffiti_art_id first_paid paid_id_of
    split_posts fetch_sorted_mempool_txs apply_tx_to_utxoset remove_prevouts insert_outputs
    note_used collect calculate_reward coinbase_block_id coinbase_tx int_to_le_bytes le_bytes
    assemble build_candidate_block validate_chain_state is_stale_block candidate
    validate_and_add_block submit mine_block
mines = refl

mine_block-IsAppended_example :
    (false ≡ false)
    × (is_chain_consistent native (genesis ∷ []) ≡ true)
    × ((new_block : Block) × (nonce : ℕ) × (candidate tools 9 0 before ≡ some new_block)
        × (some 2 ≡ some nonce)
        × IsAppended tools before
            (genesis ∷ [])
            (record new_block { nonce = nonce })
            found
            node_after)
mine_block-IsAppended_example =
    mine_block-IsAppended tools 9 0 false before before (genesis ∷ []) found node_after
      genesis-IsWeighed mines
