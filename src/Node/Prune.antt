-- ===== src/Node/Prune.antt =====
-- The mempool after a block: `_prune_mempool_confirmed` and `_extract_spent_prevouts_and_txids` of
-- src/tsarchain/consensus/chain_ops.py, and `prune_stale_entries` of src/tsarchain/mempool/policy.py.
-- The height of the tip that `prune_stale_entries` reads is the one stored with the state, an argument.
use graffiti_protocol.Base.{
  ℕ, ◌+◌, ◌-◌, false, List, [], ◌∷◌, ◌++◌, Option, none, some, length, eqb, ltb, if◌then◌else◌,
  Dict, lookup, erase, nat_key, pair_key, ◌>>=◌,
}
use graffiti_protocol.Ledger.{Tx, Outpoint, Block}
use graffiti_protocol.Utxo.Store.{Store, load}
use graffiti_protocol.Registry.{Registry}
use graffiti_protocol.Mempool.{
  TxPool, prevouts_of, drop_tx_prevouts, remove_fee_record, mark_dirty, remove_many, drop_conflicts,
  flush,
}
use graffiti_protocol.Mempool.Rules.{
  Library, Answer, accepted, rejected, raised, validate_transaction,
}

-- The seconds between two reloads, `max(MEMPOOL_FLUSH_INTERVAL, 5.0)`, in milliseconds.
abbrev prune_reload_interval : ℕ
prune_reload_interval = 5000

-- The pool with the store it reads, and when it was pruned last.
pub record Waiting : Type 0 where
  pub pool : TxPool
  pub store : Store
  pub registry : Registry
  pub last_prune_version : Option ℕ
  pub last_prune_reload : ℕ

-- The outputs that the transactions after the coinbase spend, and their ids.
unfoldable pub extract_spent : List Tx → List Outpoint × List ℕ
unfolding prevouts_of
extract_spent [] = ([], [])
extract_spent (tx ∷ txs) =
    let (spent_prevouts, txids) = extract_spent txs in
    (
      if tx.is_coinbase then spent_prevouts else prevouts_of tx.inputs ++ spent_prevouts,
      tx.txid ∷ txids,
    )

-- The waiting transactions with the fees that the check writes, and the ids of those it refuses;
-- `none` is an exception.
unfoldable pub revalidate : (Tx → Answer ℕ) → Dict ℕ Tx → Option (Dict ℕ Tx × List ℕ)
revalidate validate [] = some ([], [])
revalidate validate ((txid, tx) ∷ pool) = do
  (kept, to_remove) ← revalidate validate pool
  elim (validate tx) [
    | accepted fee ↦ some ((txid, record tx { fee = fee }) ∷ kept, to_remove)
    | rejected _ ↦ some ((txid, tx) ∷ kept, txid ∷ to_remove)
    | raised ↦ none
  ]

-- The loop's body for one id.
unfoldable pub drop_one : ℕ → TxPool → TxPool
unfolding drop_tx_prevouts remove_fee_record
drop_one txid s =
    let gone : TxPool = elim (lookup txid s.pool) [
      | none ↦ s
      | some tx_obj ↦ drop_tx_prevouts tx_obj (record s { pool = erase txid s.pool })
    ] in
    let size : ℕ = elim (lookup txid s.size_map) [ none ↦ 0 | some n ↦ n ] in
    record (remove_fee_record txid gone) {
      size_map = erase txid s.size_map;
      current_size = s.current_size - size;
    }

unfoldable pub drop_stale : List ℕ → TxPool → TxPool
unfolding drop_one
drop_stale [] s = s
drop_stale (txid ∷ txids) s = drop_stale txids (drop_one txid s)

module _ (lib : Library) (tip now : ℕ) where
  -- `validate_transaction` for a block on top of the tip.
  abbrev pub mineable : Waiting → Store → Tx → Answer ℕ
  mineable w store tx =
      validate_transaction lib
        (record { registry = w.registry; pool = []; store = store.utxos; tip_height = tip }) tx
        store.utxos (some (tip + 1))

  unfoldable pub reload_if_due : Waiting → Waiting
  unfolding load
  reload_if_due w =
      if ltb prune_reload_interval (now - w.last_prune_reload)
      then record w { store = load false w.store; last_prune_reload = now }
      else w

  -- The version is the one before the reload.
  unfoldable pub prune_entries : ℕ → Waiting → Option Waiting
  unfolding revalidate drop_stale mark_dirty
  prune_entries current_version w = do
    (kept, to_remove) ← revalidate (mineable w w.store) w.pool.pool
    (let pruned = drop_stale to_remove (record w.pool { pool = kept }) in
        some (record w {
          pool = if ltb 0 (length to_remove) then mark_dirty pruned else pruned;
          last_prune_version = some current_version;
        }))

  -- Nothing is done if the store is as it was the last time.
  unfoldable pub prune_stale_entries : Waiting → Option Waiting
  unfolding reload_if_due prune_entries
  prune_stale_entries w =
      let pruned = prune_entries w.store.version (reload_if_due w) in
      elim w.last_prune_version [
        | none ↦ pruned
        | some version ↦ if eqb version w.store.version then some w else pruned
      ]

  unfoldable pub prune_mempool_confirmed : Block → Waiting → Option Waiting
  unfolding extract_spent remove_many drop_conflicts prune_stale_entries flush
  prune_mempool_confirmed block w = elim block.transactions [
    | [] ↦ some w
    | cb ∷ txs ↦
        let (spent_prevouts, txids) = extract_spent txs in
        let (without, _) = remove_many txids now w.pool in
        let (free, _) = drop_conflicts spent_prevouts now without in
        if ltb 0 (length txids)
        then (do
          pruned ← prune_stale_entries (record w { pool = free })
          some (record pruned { pool = (flush false now pruned.pool).0 }))
        else some w
  ]
