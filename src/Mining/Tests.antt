-- ===== src/Mining/Tests.antt =====
-- A miner with one waiting transaction, and one with a post.
use graffiti_protocol.Base.{
  ℕ, ◌≡◌, ◌≤◌, refl, arith, true, false, List, [], ◌∷◌, none, some, length, pos, pair_key, nat_key,
}
use graffiti_protocol.Config.{genesis_reward_amount}
use graffiti_protocol.Ledger.{Tx, TxOut, Block}
use graffiti_protocol.Script.{serialize, encode_pushdata, read_opreturn_payload, first_push}
use graffiti_protocol.Utxo.{Utxos}
use graffiti_protocol.Rewards.{scheduled_reward, cumulative_supply_until, get_block_reward}
use graffiti_protocol.Difficulty.{calculate_expected_bits}
use graffiti_protocol.Graffiti.{parse_from_script}
use graffiti_protocol.Validation.{Addresses, passed, verify_block_fees_and_rewards}
use graffiti_protocol.Validation.Tests.{texts}
use graffiti_protocol.Mempool.Rules.{Answer, accepted}
use graffiti_protocol.Node.{weighed}
use graffiti_protocol.Node.Tests.{native, genesis}
use graffiti_protocol.Mining.Posts.{
  is_graffiti_post, select_graffiti_art_id, first_paid, paid_id_of,
}
use graffiti_protocol.Mining.Template.{
  Coinbases, apply_tx_to_utxoset, remove_prevouts, insert_outputs, note_used, collect,
  calculate_reward, coinbase_block_id, coinbase_tx, int_to_le_bytes, le_bytes, assemble,
  build_candidate_block,
}
use graffiti_protocol.Mining.Paid.{fee_list, candidate-PaysReward}
use graffiti_protocol.Mining.Apart.{AreApart, post_count, candidate-AreApart}

abbrev pub coinbases : Coinbases
coinbases = record {
  p2wpkh_script = λ address. some (address ∷ []);
  strip = λ id. id;
  cut = λ id. id;
  utf8 = λ id. id ∷ [];
  generated_id = 77;
  genesis_id = 78;
}

abbrev pay : ℕ → TxOut
pay n = record { amount = n; script_pubkey = 0x87 ∷ [] }

abbrev pub spend : Tx
spend = record {
  txid = 50;
  is_coinbase = false;
  inputs = record { prev_txid = 40; vout = 0; script_sig = []; witness = [] } ∷ [];
  outputs = pay 93 ∷ [];
  fee = 0;
  block_id = none;
}

-- Another transaction that spends the same output.
abbrev spend_again : Tx
spend_again = record spend { txid = 51 }

abbrev pub accepts_all : Tx → Utxos → Answer ℕ
accepts_all tx utxos = accepted 7

abbrev pub addresses : Addresses
addresses = record { bech32 = length; pool_of = λ art_id. art_id }

abbrev pool : List Tx
pool = spend ∷ spend_again ∷ []

abbrev pub mined_coinbase : Tx
mined_coinbase = record {
  txid = 0;
  is_coinbase = true;
  inputs =
      record { prev_txid = 0; vout = 0xFFFFFFFF; script_sig = 1 ∷ 1 ∷ 1 ∷ 77 ∷ []; witness = [] }
      ∷ [];
  outputs = record { amount = 25000000007; script_pubkey = 9 ∷ [] } ∷ [];
  fee = 0;
  block_id = some 77;
}

abbrev pub template : Block
template = record {
  height = 1;
  prev_block_hash = 1;
  merkle_root = 2;
  timestamp = 1000;
  bits = calculate_expected_bits (genesis ∷ []) 1;
  nonce = 0;
  transactions = mined_coinbase ∷ record spend { fee = 7 } ∷ [];
  chainwork = none;
  difficulty = 0;
}

builds :
    build_candidate_block coinbases native texts addresses accepts_all 9 25000000000
      (genesis ∷ [])
      []
      pool
    ≡ some template
unfolding build_candidate_block assemble collect is_graffiti_post first_paid paid_id_of
    select_graffiti_art_id coinbase_tx coinbase_block_id int_to_le_bytes le_bytes serialize
    encode_pushdata note_used apply_tx_to_utxoset remove_prevouts insert_outputs
    read_opreturn_payload first_push parse_from_script weighed
builds = refl

minted_below : cumulative_supply_until (pos 1) ≡ some genesis_reward_amount
unfolding cumulative_supply_until scheduled_reward
minted_below = refl

rewards : calculate_reward genesis_reward_amount 1 ≡ some 25000000000
unfolding calculate_reward get_block_reward cumulative_supply_until scheduled_reward
rewards = refl

candidate-PaysReward_example :
    (cb : Tx) × (txs : List Tx) × (template.transactions ≡ cb ∷ txs)
    × (verify_block_fees_and_rewards 1 cb txs (some (fee_list txs)) ≡ passed (cb ∷ txs))
candidate-PaysReward_example =
    candidate-PaysReward coinbases native texts addresses accepts_all 9 genesis_reward_amount
      genesis_reward_amount 25000000000 (genesis ∷ []) [] pool template minted_below (omega arith)
      rewards builds

candidate-AreApart_example :
    (cb : Tx) × (txs : List Tx) × (template.transactions ≡ cb ∷ txs)
    × AreApart txs
    × (post_count texts addresses txs ≤ 1)
candidate-AreApart_example =
    candidate-AreApart texts addresses accepts_all coinbases native 9 25000000000 (genesis ∷ []) []
      pool template builds
