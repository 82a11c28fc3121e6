-- ===== src/Mempool/Admit.antt =====
-- Adding a transaction, and dropping those that a block has made impossible: `add_tx` of
-- src/tsarchain/mempool/storage.py, `add_valid_tx` and `drop_conflicts` of policy.py beside it.
use graffiti_protocol.Base.{
  ℕ, ◌+◌, ◌-◌, max, Bool, true, false, List, [], ◌∷◌, none, some, ◌||◌, ltb, eqb, any,
  if◌then◌else◌, Dict, lookup, contains, insert, member, add, nat_key, pair_key,
}
use graffiti_protocol.Ledger.{Tx, TxIn, Outpoint}
use graffiti_protocol.Mempool.Pool.{
  Rate, TxPool, prevouts_of, index_tx_prevouts, drop_tx_prevouts, remove_fee_record,
  record_fee_rate, mark_dirty, maybe_flush_after_mutation, remove_tx, remove_each,
}
use graffiti_protocol.Mempool.Evict.{rate_lt, ensure_space}

-- The owners of the keys in the index that are in the pool, each once.
unfoldable pub owners_of : List Outpoint → TxPool → List ℕ
owners_of [] s = []
owners_of (key ∷ keys) s = elim (lookup key s.prevout_index) [
  | none ↦ owners_of keys s
  | some cid ↦ if contains cid s.pool then add cid (owners_of keys s) else owners_of keys s
]

-- The ids of the pool whose transactions name one of the outputs.
unfoldable pub spenders_of : List Outpoint → Dict ℕ Tx → List ℕ
spenders_of spent [] = []
spenders_of spent ((txid, tx) ∷ pool) =
    let rest = spenders_of spent pool in
    if any (λ (txin : TxIn). member (txin.prev_txid, txin.vout) spent) tx.inputs
    then txid ∷ rest
    else rest

unfoldable pub drop_conflicts : List Outpoint → ℕ → TxPool → TxPool × ℕ
unfolding owners_of spenders_of remove_each mark_dirty maybe_flush_after_mutation
drop_conflicts spent now s =
    let to_remove : List ℕ = elim (owners_of spent s) [
      | [] ↦ spenders_of spent s.pool
      | cid ∷ cids ↦ cid ∷ cids
    ] in
    let (t, removed) = remove_each to_remove s in
    if eqb removed 0 then (t, 0) else (maybe_flush_after_mutation now (mark_dirty t), removed)

module _ (size_of : Tx → ℕ) where
  -- The locked part of `add_tx`.
  unfoldable pub replace_tx : Tx → TxPool → TxPool
  unfolding drop_tx_prevouts remove_fee_record index_tx_prevouts record_fee_rate mark_dirty
  replace_tx tx s =
      let tx_size = size_of tx in
      let old = lookup tx.txid s.pool in
      let prev_size : ℕ = elim old [
        | none ↦ 0
        | some _ ↦ elim (lookup tx.txid s.size_map) [ none ↦ 0 | some n ↦ n ]
      ] in
      let t : TxPool = elim old [
        | none ↦ s
        | some old_tx ↦ remove_fee_record tx.txid (drop_tx_prevouts old_tx s)
      ] in
      let u = record t {
        pool = insert tx.txid tx t.pool;
        size_map = insert tx.txid tx_size t.size_map;
        current_size = t.current_size + tx_size - prev_size;
      } in
      mark_dirty (record_fee_rate tx tx_size (index_tx_prevouts tx u))

  unfoldable pub add_tx : Tx → ℕ → TxPool → TxPool
  unfolding ensure_space replace_tx maybe_flush_after_mutation
  add_tx tx now s =
      maybe_flush_after_mutation now (replace_tx tx (ensure_space size_of (size_of tx) s))

  abbrev rate_of : Tx → Rate
  rate_of tx = (tx.fee, max 1 (size_of tx))

  -- `new_rate > worst_old_rate` over the conflicts, the worst rate being 0 at least.
  unfoldable pub beats_rates : Tx → List Tx → Bool
  unfolding rate_lt
  beats_rates tx [] = ltb 0 tx.fee
  beats_rates tx (old ∷ conflicts) =
      if rate_lt (rate_of old) (rate_of tx) then beats_rates tx conflicts else false

  unfoldable pub worst_fee : List Tx → ℕ
  worst_fee [] = 0
  worst_fee (old ∷ conflicts) = max old.fee (worst_fee conflicts)

  unfoldable pub pool_txs : List ℕ → TxPool → List Tx
  pool_txs [] s = []
  pool_txs (cid ∷ cids) s = elim (lookup cid s.pool) [
    | none ↦ pool_txs cids s
    | some tx ↦ tx ∷ pool_txs cids s
  ]

  unfoldable pub remove_conflicts : List Tx → TxPool → TxPool
  unfolding remove_tx
  remove_conflicts [] s = s
  remove_conflicts (old ∷ conflicts) s = remove_conflicts conflicts (remove_tx old.txid s).0

  -- `valid` is the verdict of `validate_transaction`.
  unfoldable pub add_valid_tx : Bool → Tx → ℕ → TxPool → TxPool × Bool
  unfolding prevouts_of owners_of pool_txs beats_rates worst_fee remove_conflicts add_tx
  add_valid_tx valid tx now s =
      let conflicts = pool_txs (owners_of (prevouts_of tx.inputs) s) s in
      if contains tx.txid s.pool then (s, false) else (elim valid [
        | false ↦ (s, false)
        | true ↦ elim conflicts [
          | [] ↦ (add_tx tx now s, true)
          | old ∷ others ↦
              if beats_rates tx (old ∷ others) || ltb (worst_fee (old ∷ others)) tx.fee
              then (add_tx tx now (remove_conflicts (old ∷ others) s), true)
              else (s, false)
        ]
      ])
