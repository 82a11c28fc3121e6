-- ===== src/Node/Tests.antt =====
-- A block on top of the first one, and a mempool that is pruned.
use graffiti_protocol.Base.{
  ℕ, Bool, ◌⊎◌, ◌+◌, ◌≡◌, refl, true, false, List, [], ◌∷◌, ◌++◌, none, some, length,
}
use graffiti_protocol.Config.{max_bits}
use graffiti_protocol.Ledger.{Tx, Block}
use graffiti_protocol.Utxo.{Utxos, Op, update}
use graffiti_protocol.Utxo.Store.{Store}
use graffiti_protocol.Compact.{bits_to_target}
use graffiti_protocol.Difficulty.Work.{work_from_bits, chainwork_from, compute_chainwork_for_chain}
use graffiti_protocol.Chain.Native.{Native}
use graffiti_protocol.Mempool.{TxPool, drop_tx_prevouts, remove_fee_record, mark_dirty}
use graffiti_protocol.Mempool.Rules.{
  Library, validate_transaction, validate_tx_basic_guards, check_graffiti_outputs, find_payout_meta,
  find_meta, validate_natively, utxo_items, check_incoming, caught,
}
use graffiti_protocol.Validation.{compute_tx_weight_vsize}
use graffiti_protocol.Validation.Tests.{texts, registry}
use graffiti_protocol.Node.Prune.{
  Waiting, prune_mempool_confirmed, revalidate, drop_one, drop_stale, reload_if_due, prune_entries,
  prune_stale_entries,
}
use graffiti_protocol.Node.Pruned.{IsPruned, prune_stale_entries-IsPruned}
use graffiti_protocol.Node.Append.{
  NodeData, weighed, work_below, append_subsequent, append_block, add_block,
}
use graffiti_protocol.Node.Extends.{IsWeighed, Follows, work_of, add_block-IsWeighed}

abbrev pub native : Native
native = record {
  hash = λ b. b.nonce;
  merkle_root_of = λ txs. length txs;
  txid_of = λ tx. some tx.txid;
  genesis_hash = none;
  now = 1000;
}

abbrev pub library : Library
library = record {
  texts = texts;
  addresses = record { bech32 = length; pool_of = λ art_id. art_id };
  pool_hash = λ art_id. art_id ∷ [];
  size = λ w tx. 200;
  native_validate_tx = λ tx items height. record { ok = true; reason = none; fee = 7 };
}

abbrev pub build_ops : List Tx → ℕ → List Op
build_ops txs height = []

abbrev pub native_apply : Utxos → List Op → Utxos
native_apply disk ops = disk

abbrev pub empty_pool : TxPool
empty_pool = record {
  pool = [];
  size_map = [];
  prevout_index = [];
  tx_prevouts = [];
  fee_heap = [];
  heap_entries = [];
  current_size = 0;
  dirty = false;
  change_seq = 0;
  last_flush = 0;
  stored = [];
}

abbrev empty_store : Store
empty_store = record {
  utxos = [];
  dirty = false;
  dirty_keys = [];
  removed_keys = [];
  rewrite_all = false;
  version = 0;
  disk = [];
  recorded = [];
}

abbrev block_of : ℕ → List Tx → Block
block_of height txs = record {
  height = height;
  prev_block_hash = height;
  merkle_root = length txs;
  timestamp = 100 + height;
  bits = max_bits;
  nonce = height + 1;
  transactions = txs;
  chainwork = none;
  difficulty = 0;
}

abbrev pub genesis : Block
genesis = weighed 0 (block_of 0 [])

abbrev next : Block
next = block_of 1 []

abbrev pub waiting : Waiting
waiting = record {
  pool = empty_pool;
  store = empty_store;
  registry = registry;
  last_prune_version = none;
  last_prune_reload = 0;
}

abbrev pub node : NodeData
node = record { chain = genesis ∷ []; total_blocks = 1; waiting = waiting }

abbrev node_after : NodeData
node_after = record {
  chain = genesis ∷ weighed (work_from_bits max_bits) next ∷ [];
  total_blocks = 2;
  waiting = waiting;
}

pub genesis-IsWeighed : IsWeighed (genesis ∷ [])
unfolding compute_chainwork_for_chain chainwork_from weighed
genesis-IsWeighed = refl

adds : add_block native library build_ops native_apply 0 0 next node ≡ some node_after
unfolding add_block append_block append_subsequent work_below weighed update prune_mempool_confirmed
    compute_chainwork_for_chain chainwork_from work_from_bits bits_to_target
adds = refl

add_block-IsWeighed_example :
    Follows native (some genesis) next
    × (node_after.chain ≡ (genesis ∷ []) ++ weighed (work_of (genesis ∷ [])) next ∷ [])
    × IsWeighed node_after.chain
    × (2 ≡ 1 + 1)
add_block-IsWeighed_example =
    add_block-IsWeighed native library build_ops native_apply 0 0 next node node_after
      genesis-IsWeighed adds

abbrev spend : Bool → Tx
spend is_coinbase = record {
  txid = 50;
  is_coinbase = is_coinbase;
  inputs = record { prev_txid = 40; vout = 0; script_sig = []; witness = [] } ∷ [];
  outputs = [];
  fee = 0;
  block_id = none;
}

-- A transaction that passes, and a coinbase, which does not.
abbrev unpruned : Waiting
unpruned = record waiting {
  pool = record empty_pool { pool = (50, spend false) ∷ (60, spend true) ∷ [] };
}

abbrev pruned : Waiting
pruned = record waiting {
  pool = record empty_pool {
    pool = (50, record (spend false) { fee = 7 }) ∷ [];
    dirty = true;
    change_seq = 1;
  };
  last_prune_version = some 0;
}

prunes : prune_stale_entries library 0 10 unpruned ≡ some pruned
unfolding prune_stale_entries prune_entries reload_if_due revalidate drop_stale drop_one
    drop_tx_prevouts remove_fee_record mark_dirty validate_transaction validate_tx_basic_guards
    compute_tx_weight_vsize check_graffiti_outputs find_payout_meta find_meta validate_natively
    utxo_items check_incoming caught
prunes = refl

prune_stale_entries-IsPruned_example :
    (unpruned.last_prune_version ≡ some 0) × (pruned ≡ unpruned)
    ⊎ (pruned.last_prune_version ≡ some 0) × IsPruned library 0 10 unpruned pruned
prune_stale_entries-IsPruned_example =
    prune_stale_entries-IsPruned library 0 10 unpruned pruned prunes
