-- ===== src/Utxo/Update.antt =====
-- The operations of a block: `update`, which applies the changes that native code worked out, and
-- `rebuild_from_chain`, which replays the chain.
use graffiti_protocol.Base.{
  ℕ, ◌+◌, Bool, true, false, List, [], ◌∷◌, ◌++◌, if◌then◌else◌, erase, pair_key,
}
use graffiti_protocol.Ledger.{Outpoint, TxIn, TxOut, Tx, Block}
use graffiti_protocol.Utxo.Store.{
  Entry, Utxos, Store, bump_version, put_entry, drop_entry, add_output, save,
}

-- A change of native_utxo_build_ops_compact: an amount that is None deletes the key.
pub data Op : Type 0 where
  put : Outpoint → Entry → Op
  delete : Outpoint → Op

unfoldable pub apply_op : Op → Store → Store
unfolding put_entry drop_entry
apply_op (put key entry) s = put_entry key entry s
apply_op (delete key) s = drop_entry key s

unfoldable pub apply_ops : List Op → Store → Store
unfolding apply_op
apply_ops [] s = s
apply_ops (op ∷ ops) s = apply_ops ops (apply_op op s)

unfoldable pub record_events : List Tx → ℕ → Store → Store
record_events [] height s = s
record_events (tx ∷ txs) height s =
    record_events txs height (record s { recorded = s.recorded ++ (tx.txid, height) ∷ [] })

-- `_apply_native_ops_to_state`. `native_apply` is the store's own `apply_utxo_ops`.
unfoldable pub apply_native_ops : (Utxos → List Op → Utxos) → List Op → Store → Store
unfolding apply_ops bump_version
apply_native_ops native_apply ops s =
    let t = apply_ops ops s in
    bump_version (record t {
      disk = native_apply t.disk ops;
      dirty = false;
      dirty_keys = [];
      removed_keys = [];
      rewrite_all = false;
    })

-- `update`; `build_ops` is native_utxo_build_ops_compact. An empty block changes nothing.
-- A native call that fails, "native UTXO apply failed", is left out.
unfoldable pub update :
    (List Tx → ℕ → List Op) → (Utxos → List Op → Utxos) → List Tx → ℕ → Store → Store
unfolding apply_native_ops record_events
update build_ops native_apply [] height s = s
update build_ops native_apply (tx ∷ txs) height s =
    record_events (tx ∷ txs) height (apply_native_ops native_apply (build_ops (tx ∷ txs) height) s)

-- `_rebuild_spend_inputs`: the keys go from memory, and nothing else is noted.
unfoldable rebuild_spend_inputs : List TxIn → Store → Store
rebuild_spend_inputs [] s = s
rebuild_spend_inputs (i ∷ inputs) s =
    rebuild_spend_inputs inputs (record s { utxos = erase (i.prev_txid, i.vout) s.utxos })

unfoldable rebuild_outputs : ℕ → Bool → ℕ → ℕ → List TxOut → Store → Store
unfolding add_output
rebuild_outputs txid is_cb height index [] s = s
rebuild_outputs txid is_cb height index (o ∷ outputs) s =
    rebuild_outputs txid is_cb height (index + 1) outputs
      (add_output (txid, index) o is_cb height s)

unfoldable rebuild_tx : Tx → ℕ → Store → Store
unfolding rebuild_spend_inputs rebuild_outputs record_events
rebuild_tx tx height s =
    let spent = if tx.is_coinbase then s else rebuild_spend_inputs tx.inputs s in
    record_events (tx ∷ []) height
      (rebuild_outputs tx.txid tx.is_coinbase height 0 tx.outputs spent)

unfoldable rebuild_block : List Tx → ℕ → Store → Store
unfolding rebuild_tx
rebuild_block [] height s = s
rebuild_block (tx ∷ txs) height s = rebuild_block txs height (rebuild_tx tx height s)

unfoldable pub rebuild_blocks : List Block → Store → Store
unfolding rebuild_block
rebuild_blocks [] s = s
rebuild_blocks (b ∷ blocks) s = rebuild_blocks blocks (rebuild_block b.transactions b.height s)

unfoldable pub rebuild_from_chain : List Block → Store → Store
unfolding rebuild_blocks save bump_version
rebuild_from_chain blocks s =
    let cleared = record s { utxos = []; dirty_keys = []; removed_keys = []; rewrite_all = true } in
    bump_version (save true (record (rebuild_blocks blocks cleared) { dirty = true }))
