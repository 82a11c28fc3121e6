-- ===== src/Mempool/Index.antt =====
-- The index of spent outputs against the pool, for the operations of
-- src/tsarchain/mempool/policy.py and storage.py.
use graffiti_protocol.Base.{
  ℕ, ◌≡◌, ◌≢◌, inl, inr, refl, arith, true, List, [], ◌∷◌, Option, none, some, Dict, lookup, member,
  lookup-insert, lookup-erase, eqb, pair_eqb, pair_eqb_iff, nat_key, pair_key, if◌then◌else◌,
  Bool-cases, List-cases,
}
use graffiti_protocol.Ledger.{Tx, Outpoint}
use graffiti_protocol.Mempool.Pool.{
  TxPool, prevouts_of, index_all, erase_all, erase_owned, drop_tx_prevouts,
}

-- What a transaction of the pool spends; a coinbase spends nothing.
abbrev pub spent_by : Tx → List Outpoint
spent_by tx = if tx.is_coinbase then [] else prevouts_of tx.inputs

-- The outputs that are noted for an id, none if there are none.
abbrev pub noted_of : Option Tx → Option (List Outpoint)
noted_of none = none
noted_of (some tx) = elim (spent_by tx) [ [] ↦ none | k ∷ ks ↦ some (k ∷ ks) ]

-- A transaction of the pool stands under its id, the index names it for each output that it spends, and
-- names nobody else, and its outputs are noted.
pub record IsIndexed (s : TxPool) : Type 0 where
  pub own_id : (t : ℕ) (tx : Tx) → lookup t s.pool ≡ some tx → tx.txid ≡ t
  pub spends :
      (t : ℕ) (tx : Tx) (k : Outpoint)
      → lookup t s.pool ≡ some tx
      → member k (spent_by tx) ≡ true
      → lookup k s.prevout_index ≡ some t
  pub owned :
      (k : Outpoint) (t : ℕ)
      → lookup k s.prevout_index ≡ some t
      → (tx : Tx) × (lookup t s.pool ≡ some tx) × (member k (spent_by tx) ≡ true)
  pub noted : (t : ℕ) → lookup t s.tx_prevouts ≡ noted_of (lookup t s.pool)

pub lookup-index_all :
    (keys : List Outpoint) (owner : ℕ) (index : Dict Outpoint ℕ) (k : Outpoint)
    → lookup k (index_all keys owner index) ≡ (if member k keys then some owner else lookup k index)
unfolding index_all
lookup-index_all [] owner index k = refl
lookup-index_all (j ∷ keys) owner index k = ground (
  arith,
  lookup-index_all keys owner index k,
  lookup-insert j k owner (index_all keys owner index),
)

lookup-erase_all :
    (keys : List Outpoint) (index : Dict Outpoint ℕ) (k : Outpoint)
    → lookup k (erase_all keys index) ≡ (if member k keys then none else lookup k index)
unfolding erase_all
lookup-erase_all [] index k = refl
lookup-erase_all (j ∷ keys) index k =
    ground (arith, lookup-erase_all keys index k, lookup-erase j k (erase_all keys index))

lookup-erase_owned :
    (owner : ℕ) (index : Dict Outpoint ℕ) (k : Outpoint)
    → lookup k index ≢ some owner
    → lookup k (erase_owned owner index) ≡ lookup k index
unfolding erase_owned
lookup-erase_owned owner [] k h = refl
lookup-erase_owned owner ((j, o) ∷ index) k h = elim (Bool-cases (pair_eqb j k)) [
  | inl here ↦ elim (Bool-cases (eqb o owner)) [
    | inl same ↦ absurd (h (ground arith))
    | inr other ↦ ground arith
  ]
  | inr there ↦ ground (arith, lookup-erase_owned owner index k (λ e. h (ground (arith, e))))
]

owned-unspent :
    (s : TxPool) (t : ℕ) (tx : Tx) (k : Outpoint)
    → IsIndexed s
    → lookup t s.pool ≡ some tx
    → spent_by tx ≡ []
    → lookup k s.prevout_index ≢ some t
owned-unspent s t tx k h there nothing e = let (tx', there', spent) = h.owned k t e in ground arith

noted-empty :
    (s : TxPool) (t : ℕ) (tx : Tx)
    → IsIndexed s
    → lookup t s.pool ≡ some tx
    → spent_by tx ≡ []
    → lookup t s.tx_prevouts ≡ none
noted-empty s t tx h there nothing = ground (arith, h.noted t)

noted-some :
    (s : TxPool) (t : ℕ) (tx : Tx) (k : Outpoint) (ks : List Outpoint)
    → IsIndexed s
    → lookup t s.pool ≡ some tx
    → spent_by tx ≡ k ∷ ks
    → (lookup t s.tx_prevouts ≡ some (k ∷ ks)) × (lookup k s.prevout_index ≡ some t)
noted-some s t tx k ks h there some_keys =
    (ground (arith, h.noted t), h.spends t tx k there (ground (arith, pair_eqb_iff k k)))

-- A state with the same index and notes as `s`, in which the transaction may be out of the pool.
module _ (s s' : TxPool) (tx : Tx) (t : ℕ) (h : IsIndexed s) (there : lookup t s.pool ≡ some tx)
    (same_index : s'.prevout_index ≡ s.prevout_index)
    (same_notes : s'.tx_prevouts ≡ s.tx_prevouts) where
  pub drop_tx_prevouts-index :
      (k : Outpoint)
      → lookup k (drop_tx_prevouts tx s').prevout_index
        ≡ (if member k (spent_by tx) then none else lookup k s.prevout_index)
  unfolding drop_tx_prevouts
  drop_tx_prevouts-index k = elim (List-cases (spent_by tx)) [
    | inl nothing ↦ ground (
      arith,
      h.own_id t tx,
      noted-empty s t tx h there nothing,
      lookup-erase_owned t s'.prevout_index k,
      owned-unspent s t tx k h there nothing,
    )
    | inr (j, js, e) ↦ ground (
      arith,
      h.own_id t tx,
      noted-some s t tx j js h there e,
      lookup-erase_all (j ∷ js) s'.prevout_index k,
    )
  ]

  pub drop_tx_prevouts-noted :
      (j : ℕ)
      → lookup j (drop_tx_prevouts tx s').tx_prevouts
        ≡ (if eqb t j then none else lookup j s.tx_prevouts)
  unfolding drop_tx_prevouts
  drop_tx_prevouts-noted j = elim (List-cases (spent_by tx)) [
    | inl nothing ↦
        ground (
          arith,
          h.own_id t tx,
          noted-empty s t tx h there nothing,
          lookup-erase t j s'.tx_prevouts,
        )
    | inr (k, ks, e) ↦
        ground
          (arith, h.own_id t tx, noted-some s t tx k ks h there e, lookup-erase t j s'.tx_prevouts)
  ]
