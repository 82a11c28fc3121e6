-- ===== src/Mempool/Pool.antt =====
-- The state, the index of the outputs that are spent, and the operations of one transaction of
-- src/tsarchain/mempool/storage.py and policy.py.
-- A fee rate is a float in the source and the exact pair of fee and size here. The size that the
-- source counts is cut off at 0 after every subtraction, as the subtraction of natural numbers is.
use graffiti_protocol.Base.{
  ℕ, ◌+◌, ◌-◌, max, Bool, true, false, List, [], ◌∷◌, none, some, map, not, ◌&&◌, ltb, eqb,
  if◌then◌else◌, sum_by, Dict, lookup, contains, insert, erase, add, nat_key, pair_key,
}
use graffiti_protocol.Ledger.{Tx, TxIn, Outpoint}

abbrev pub Rate : Type 0
Rate = ℕ × ℕ

-- `stored` is what the database holds.
pub record TxPool : Type 0 where
  pub pool : Dict ℕ Tx
  pub size_map : Dict ℕ ℕ
  pub prevout_index : Dict Outpoint ℕ
  pub tx_prevouts : Dict ℕ (List Outpoint)
  pub fee_heap : List (Rate × ℕ)
  pub heap_entries : Dict ℕ Rate
  pub current_size : ℕ
  pub dirty : Bool
  pub change_seq : ℕ
  pub last_flush : ℕ
  pub stored : List Tx

abbrev flush_interval : ℕ
flush_interval = 5000

-- The set of the outputs that the inputs name.
unfoldable pub prevouts_of : List TxIn → List Outpoint
prevouts_of [] = []
prevouts_of (txin ∷ inputs) = add (txin.prev_txid, txin.vout) (prevouts_of inputs)

unfoldable is_prevout_spent : ℕ → ℕ → TxPool → Bool
is_prevout_spent txid vout s = contains (txid, vout) s.prevout_index

unfoldable pub index_all : List Outpoint → ℕ → Dict Outpoint ℕ → Dict Outpoint ℕ
index_all [] owner index = index
index_all (key ∷ keys) owner index = insert key owner (index_all keys owner index)

-- An empty set is not noted.
unfoldable pub note_prevouts : ℕ → List Outpoint → Dict ℕ (List Outpoint) → Dict ℕ (List Outpoint)
note_prevouts owner [] noted = noted
note_prevouts owner (key ∷ keys) noted = insert owner (key ∷ keys) noted

unfoldable pub index_tx_prevouts : Tx → TxPool → TxPool
unfolding prevouts_of index_all note_prevouts
index_tx_prevouts tx s =
    let keys = prevouts_of tx.inputs in
    if tx.is_coinbase then s else record s {
      prevout_index = index_all keys tx.txid s.prevout_index;
      tx_prevouts = note_prevouts tx.txid keys s.tx_prevouts;
    }

unfoldable pub erase_all : List Outpoint → Dict Outpoint ℕ → Dict Outpoint ℕ
erase_all [] index = index
erase_all (key ∷ keys) index = erase key (erase_all keys index)

-- The entries of one owner go, found by looking at all of them.
unfoldable pub erase_owned : ℕ → Dict Outpoint ℕ → Dict Outpoint ℕ
erase_owned owner [] = []
erase_owned owner ((key, o) ∷ index) =
    if eqb o owner then erase_owned owner index else (key, o) ∷ erase_owned owner index

unfoldable pub drop_tx_prevouts : Tx → TxPool → TxPool
unfolding erase_all erase_owned
drop_tx_prevouts tx s =
    let index' : Dict Outpoint ℕ = elim (lookup tx.txid s.tx_prevouts) [
      | none ↦ erase_owned tx.txid s.prevout_index
      | some keys ↦ elim keys [
        | [] ↦ erase_owned tx.txid s.prevout_index
        | k ∷ ks ↦ erase_all (k ∷ ks) s.prevout_index
      ]
    ] in
    if tx.is_coinbase then s else (elim s.prevout_index [
      | [] ↦ s
      | _ ∷ _ ↦ record s { prevout_index = index'; tx_prevouts = erase tx.txid s.tx_prevouts }
    ])

unfoldable pub mark_dirty : TxPool → TxPool
mark_dirty s = record s { dirty = true; change_seq = s.change_seq + 1 }

unfoldable pub flush : Bool → ℕ → TxPool → TxPool × Bool
flush force now s =
    if not force && not s.dirty
    then (s, false)
    else (if not force && ltb (now - s.last_flush) flush_interval
        then (s, false)
        else (record s { dirty = false; last_flush = now; stored = map (λ e. e.1) s.pool }, true))

unfoldable pub maybe_flush_after_mutation : ℕ → TxPool → TxPool
unfolding flush
maybe_flush_after_mutation now s =
    if not s.dirty
    then s
    else (if ltb (now - s.last_flush) flush_interval then s else (flush false now s).0)

unfoldable pub remove_fee_record : ℕ → TxPool → TxPool
remove_fee_record txid s = record s { heap_entries = erase txid s.heap_entries }

unfoldable pub record_fee_rate : Tx → ℕ → TxPool → TxPool
record_fee_rate tx size s =
    let rate : Rate = (tx.fee, max 1 size) in
    record s {
      heap_entries = insert tx.txid rate s.heap_entries;
      fee_heap = (rate, tx.txid) ∷ s.fee_heap;
    }

-- `_size_map.pop(txid, default)`, taken off the current size.
unfoldable pub pop_size : ℕ → ℕ → TxPool → TxPool × ℕ
pop_size txid default s =
    let size : ℕ = elim (lookup txid s.size_map) [ none ↦ default | some n ↦ n ] in
    (record s { size_map = erase txid s.size_map; current_size = s.current_size - size }, size)

-- What every removal does with a transaction that is in the pool.
unfoldable pub take_out : ℕ → Tx → TxPool → TxPool
unfolding drop_tx_prevouts remove_fee_record pop_size
take_out txid tx s =
    let popped = record s { pool = erase txid s.pool } in
    (pop_size txid 0 (remove_fee_record txid (drop_tx_prevouts tx popped))).0

unfoldable pub remove_tx : ℕ → TxPool → TxPool × Bool
unfolding take_out mark_dirty
remove_tx txid s = elim (lookup txid s.pool) [
  | none ↦ (s, false)
  | some tx ↦ (mark_dirty (take_out txid tx s), true)
]

-- The loop over the ids: the state, and how many were removed.
unfoldable pub remove_each : List ℕ → TxPool → TxPool × ℕ
unfolding take_out
remove_each [] s = (s, 0)
remove_each (txid ∷ txids) s = elim (lookup txid s.pool) [
  | none ↦ remove_each txids s
  | some tx ↦ let rest = remove_each txids (take_out txid tx s) in (rest.0, rest.1 + 1)
]

unfoldable pub remove_many : List ℕ → ℕ → TxPool → TxPool × ℕ
unfolding remove_each mark_dirty maybe_flush_after_mutation
remove_many txids now s =
    let (t, removed) = remove_each txids s in
    if eqb removed 0 then (t, 0) else (maybe_flush_after_mutation now (mark_dirty t), removed)

unfoldable clear : ℕ → TxPool → TxPool
unfolding mark_dirty flush
clear now s = elim s.pool [
  | [] ↦ s
  | _ ∷ _ ↦
      (flush true now (
        mark_dirty (record s {
          pool = [];
          size_map = [];
          current_size = 0;
          prevout_index = [];
          tx_prevouts = [];
          fee_heap = [];
          heap_entries = [];
        }))).0
]

module _ (size_of : Tx → ℕ) where
  -- A transaction enters the maps under its id.
  unfoldable put_tx : Tx → TxPool → TxPool
  unfolding index_tx_prevouts record_fee_rate
  put_tx tx s = record_fee_rate tx (size_of tx) (
      index_tx_prevouts tx (record s {
        pool = insert tx.txid tx s.pool;
        size_map = insert tx.txid (size_of tx) s.size_map;
      }))

  unfoldable put_all : List Tx → TxPool → TxPool
  unfolding put_tx
  put_all [] s = s
  put_all (tx ∷ txs) s = put_all txs (put_tx tx s)

  unfoldable save_pool : List Tx → ℕ → TxPool → TxPool
  unfolding put_all mark_dirty flush
  save_pool txs now s =
      let t = put_all txs (record s {
        pool = [];
        size_map = [];
        prevout_index = [];
        tx_prevouts = [];
        fee_heap = [];
        heap_entries = [];
      }) in
      (flush true now (mark_dirty (record t { current_size = sum_by (λ e. e.1) t.size_map }))).0
