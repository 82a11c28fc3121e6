-- ===== src/Validation/Tests.antt =====
-- A block that spends an output and pays out of a pool, and the results on it.
use graffiti_protocol.Base.{
  ℕ, ◌+◌, ◌-◌, ◌≡◌, ◌≢◌, refl, arith, true, false, List, [], ◌∷◌, none, some, length, any, pos,
  pos_part, pair_key,
}
use graffiti_protocol.Config.{max_bits, genesis_reward_amount}
use graffiti_protocol.Ledger.{Tx, TxOut, Block}
use graffiti_protocol.Script.{
  parse_ops, parse_ops_from, read_push, is_push, last_pushed, last_pushdata, is_p2wpkh, is_p2wsh,
  read_opreturn_payload, first_push,
}
use graffiti_protocol.Graffiti.{Text, parse_from_script}
use graffiti_protocol.Registry.{Registry}
use graffiti_protocol.Utxo.{Utxos}
use graffiti_protocol.Compact.{bits_to_target}
use graffiti_protocol.Difficulty.{
  calculate_expected_bits, expected_bits_on_prefix, median_time_past_of, sorted, insert_sorted,
}
use graffiti_protocol.Chain.Native.{Native, pow_ok, merkle_ok}
use graffiti_protocol.Rewards.{scheduled_reward, cumulative_supply_until, supply_loop}
use graffiti_protocol.Validation.Reason.{passed}
use graffiti_protocol.Validation.Context.{
  compute_txids_for_block, check_txid, for_txs, ensure_unique_txids, unique_from,
  check_block_limits, estimate_block_size, validate_chain_context, check_place, check_parent_time,
  validate_difficulty, check_sigops_budget, sigops_budget, sigops_count, input_sigops, prev_script,
  count_sigops_in_script, witness_script, spent_script, compute_tx_weight_vsize,
}
use graffiti_protocol.Validation.Guardrails.{
  validate_tx_guardrails, validate_tx_guardrail, check_sizes, validate_graffiti_outputs,
  validate_graffiti_output, validate_graffiti_payload,
}
use graffiti_protocol.Validation.Posts.{
  validate_graffiti_posts, tally_txs, tally_outputs, check_output_post, check_tally, is_block_id,
  spk_to_address,
}
use graffiti_protocol.Validation.Payouts.{
  validate_graffiti_payouts, paymap_of, check_outputs_payouts, check_output_payout,
}
use graffiti_protocol.Validation.Amounts.{
  prepare_tx_snapshot, snapshot_txs, snapshot_inputs, validate_transactions_payload,
  verify_block_fees_and_rewards, fees_of, with_fees,
}
use graffiti_protocol.Validation.Block.{
  Outside, NodeState, check_alone, validate_graffiti_rules, validate_transactions, same_hash,
  same_token, validate_block_txs, validate_block,
}
use graffiti_protocol.Validation.Accepted.{IsPlaced, HasFreshIds, validate_block-IsPlaced}
use graffiti_protocol.Validation.Snapshot.{IsCovered, prepare_tx_snapshot-IsCovered}
use graffiti_protocol.Validation.Paid.{IsChecked, PaysReward, validate_block-PaysReward}

abbrev native : Native
native = record {
  hash = λ b. b.nonce;
  merkle_root_of = λ txs. length txs;
  txid_of = λ tx. some tx.txid;
  genesis_hash = none;
  now = 1000;
}

-- Texts of small numbers: 1 to 99 are addresses and art ids, and 100 + n is the number n.
abbrev pub texts : Text
texts = record {
  magic = 71 ∷ [];
  read_json = λ raw. none;
  clean = λ s. s;
  upper = λ s. s;
  size_of = λ s. 64;
  hex_size = λ s. some s;
  int_text = λ s. some (pos (s - 100));
  int_other = λ s. none;
  str_number = λ n. 100 + pos_part n;
  str_other = λ s. s;
  str_null = 0;
  is_true = λ s. true;
  is_sha256_hex = λ s. true;
  is_mime = λ s. true;
  is_address = λ s. true;
  is_art_id = λ s. true;
  has_prefix = λ s. false;
  is_prefixed_id = λ s. false;
  is_hex64 = λ s. true;
  decorate = λ s. s;
  art_hash = λ sha creator. sha + creator;
  t_post = 200;
  t_comment = 201;
  t_payout = 202;
}

abbrev outside : Outside
outside = record {
  native = native;
  texts = texts;
  addresses = record { bech32 = length; pool_of = λ art_id. art_id };
  size = λ w tx. 200;
  count_sigops = λ script. 1;
  native_validate =
      λ txs snapshot height. record { ok = true; reason = none; fees = some (7 ∷ []) };
}

abbrev pay : ℕ → TxOut
pay n = record { amount = n; script_pubkey = 0x87 ∷ [] }

abbrev coinbase : ℕ → ℕ → Tx
coinbase txid n = record {
  txid = txid;
  is_coinbase = true;
  inputs = [];
  outputs = pay n ∷ [];
  fee = 0;
  block_id = none;
}

abbrev spend : Tx
spend = record {
  txid = 50;
  is_coinbase = false;
  inputs = record { prev_txid = 40; vout = 0; script_sig = []; witness = [] } ∷ [];
  outputs = pay 93 ∷ [];
  fee = 0;
  block_id = none;
}

abbrev block_of : ℕ → ℕ → List Tx → Block
block_of height timestamp txs = record {
  height = height;
  prev_block_hash = height;
  merkle_root = length txs;
  timestamp = timestamp;
  bits = max_bits;
  nonce = height + 1;
  transactions = txs;
  chainwork = none;
  difficulty = 0;
}

abbrev genesis : Block
genesis = block_of 0 100 (coinbase 40 genesis_reward_amount ∷ [])

abbrev next : Block
next = block_of 1 140 (coinbase 41 25000000007 ∷ spend ∷ [])

abbrev utxos : Utxos
utxos = ((40, 0), record { tx_out = pay 100; is_coinbase = false; block_height = 0 }) ∷ []

abbrev pub registry : Registry
registry = record {
  posts = [];
  stored_posts = [];
  disk_posts = [];
  comments = record { lists = []; counts = []; disk = [] };
  payouts = record { lists = []; counts = []; disk = [] };
  proofs = record { lists = []; counts = []; disk = [] };
}

abbrev node : NodeState
node = record { chain = genesis ∷ []; utxos = utxos; registry = registry }

abbrev checked : List Tx
checked = coinbase 41 25000000007 ∷ record spend { fee = 7 } ∷ []

accepts : validate_block outside node (genesis ∷ []) next ≡ passed checked
unfolding parse_ops parse_ops_from read_push is_push last_pushed last_pushdata is_p2wpkh is_p2wsh
    read_opreturn_payload first_push parse_from_script bits_to_target calculate_expected_bits
    expected_bits_on_prefix median_time_past_of sorted insert_sorted pow_ok merkle_ok
    scheduled_reward cumulative_supply_until supply_loop compute_txids_for_block check_txid for_txs
    ensure_unique_txids unique_from check_block_limits estimate_block_size validate_chain_context
    check_place check_parent_time validate_difficulty check_sigops_budget sigops_budget sigops_count
    input_sigops prev_script count_sigops_in_script witness_script spent_script
    compute_tx_weight_vsize validate_tx_guardrails validate_tx_guardrail check_sizes
    validate_graffiti_outputs validate_graffiti_output validate_graffiti_payload
    validate_graffiti_posts tally_txs tally_outputs check_output_post check_tally is_block_id
    spk_to_address validate_graffiti_payouts paymap_of check_outputs_payouts check_output_payout
    prepare_tx_snapshot snapshot_txs snapshot_inputs validate_transactions_payload
    verify_block_fees_and_rewards fees_of with_fees check_alone validate_graffiti_rules
    validate_transactions same_hash same_token validate_block_txs validate_block
accepts = refl

validate_block-IsPlaced_example :
    IsPlaced native (genesis ∷ []) next
    × HasFreshIds [] next.transactions
    × (next.transactions ≢ [])
    × (same_token outside (genesis ∷ []) (genesis ∷ []) ≡ true)
validate_block-IsPlaced_example =
    validate_block-IsPlaced outside node (genesis ∷ []) next checked accepts

validate_block-PaysReward_example :
    (cb : Tx) × (txs : List Tx) × (paid : List Tx) × (next.transactions ≡ cb ∷ txs)
    × (checked ≡ cb ∷ paid)
    × (cb.is_coinbase ≡ true)
    × (any (λ t. t.is_coinbase) txs ≡ false)
    × IsChecked outside utxos 1 cb txs paid
    × PaysReward 1 cb paid
validate_block-PaysReward_example =
    validate_block-PaysReward outside node (genesis ∷ []) next checked (omega arith) accepts

prepare_tx_snapshot-IsCovered_example :
    IsCovered utxos utxos [] (coinbase 41 25000000007 ∷ spend ∷ [])
prepare_tx_snapshot-IsCovered_example =
    prepare_tx_snapshot-IsCovered utxos utxos (coinbase 41 25000000007 ∷ spend ∷ [])
      (unfold prepare_tx_snapshot snapshot_txs snapshot_inputs in refl)
