-- ===== src/Mempool/Joining.antt =====
-- A transaction that joins the pool, and the conflicts that leave it for that, of
-- src/tsarchain/mempool/storage.py and policy.py.
use graffiti_protocol.Base.{
  ℕ, ◌≡◌, inl, inr, ◌∙◌, ap, sym, arith, true, List, [], ◌∷◌, none, some, lookup, member,
  lookup-insert, member-add, eqb, pair_eqb_iff, nat_key, pair_key, if◌then◌else◌, Bool-cases,
  Option-cases, List-cases,
}
use graffiti_protocol.Ledger.{Tx, Outpoint}
use graffiti_protocol.Mempool.Pool.{
  TxPool, prevouts_of, note_prevouts, index_tx_prevouts, mark_dirty, record_fee_rate,
  maybe_flush_after_mutation, flush, remove_tx,
}
use graffiti_protocol.Mempool.Admit.{owners_of, replace_tx, remove_conflicts}
use graffiti_protocol.Mempool.Index.{spent_by, noted_of, IsIndexed, lookup-index_all}
use graffiti_protocol.Mempool.Removal.{IsPart, remove_tx-IsIndexed}

pub same-IsIndexed :
    (s r : TxPool)
    → r.pool ≡ s.pool
    → r.prevout_index ≡ s.prevout_index
    → r.tx_prevouts ≡ s.tx_prevouts
    → IsIndexed s
    → IsIndexed r
same-IsIndexed s r p i n h = record {
  own_id = λ j x e. h.own_id j x (ap (lookup j) (sym p) ∙ e);
  spends = λ j x k e m. ap (lookup k) i ∙ h.spends j x k (ap (lookup j) (sym p) ∙ e) m;
  owned = λ k j e.
      let (x, pooled, spent) = h.owned k j (ap (lookup k) (sym i) ∙ e) in
      (x, ap (lookup j) p ∙ pooled, spent);
  noted = λ j. ap (lookup j) n ∙ h.noted j ∙ ap (λ d. noted_of (lookup j d)) (sym p);
}

pub maybe_flush-same :
    (now : ℕ) (s : TxPool)
    → ((maybe_flush_after_mutation now s).pool ≡ s.pool)
      × ((maybe_flush_after_mutation now s).prevout_index ≡ s.prevout_index)
      × ((maybe_flush_after_mutation now s).tx_prevouts ≡ s.tx_prevouts)
unfolding maybe_flush_after_mutation flush
maybe_flush-same now s = ground arith

-- A transaction that joins the index.
pub record Gained (s r : TxPool) (tx : Tx) : Type 0 where
  pool_with : (j : ℕ) → lookup j r.pool ≡ (if eqb tx.txid j then some tx else lookup j s.pool)
  index_with :
      (k : Outpoint)
      → lookup k r.prevout_index
        ≡ (if member k (spent_by tx) then some tx.txid else lookup k s.prevout_index)
  notes_with :
      (j : ℕ)
      → lookup j r.tx_prevouts
        ≡ (if eqb tx.txid j then noted_of (some tx) else lookup j s.tx_prevouts)

pub Gained-IsIndexed :
    (s r : TxPool) (tx : Tx)
    → IsIndexed s
    → lookup tx.txid s.pool ≡ none
    → ((k : Outpoint) → member k (spent_by tx) ≡ true → lookup k s.prevout_index ≡ none)
    → Gained s r tx
    → IsIndexed r
Gained-IsIndexed s r tx h fresh free g = record {
  own_id = λ j x e. ground (arith, g.pool_with j, h.own_id j x);
  spends = λ j x k e m. ground (arith, g.pool_with j, g.index_with k, h.spends j x k, free k);
  owned = λ k j e. elim (Bool-cases (member k (spent_by tx))) [
    | inl own ↦ (tx, ground (arith, g.pool_with j, g.index_with k), own)
    | inr other ↦
        let index : lookup k s.prevout_index ≡ some j = ground (arith, g.index_with k) in
        let (x, pooled, spent) = h.owned k j index in (x, ground (arith, g.pool_with j), spent)
  ];
  noted = λ j. ground (arith, g.notes_with j, g.pool_with j, h.noted j);
}

module _ (size_of : Tx → ℕ) where
  pub replace_tx-Gained :
      (tx : Tx) (s : TxPool)
      → lookup tx.txid s.pool ≡ none
      → lookup tx.txid s.tx_prevouts ≡ none
      → Gained s (replace_tx size_of tx s) tx
  unfolding replace_tx mark_dirty record_fee_rate index_tx_prevouts note_prevouts
  replace_tx-Gained tx s fresh unnoted =
      let keys = prevouts_of tx.inputs in
      record {
        pool_with = λ j. ground (arith, lookup-insert tx.txid j tx s.pool);
        index_with = λ k. ground (arith, lookup-index_all keys tx.txid s.prevout_index k);
        notes_with = λ j. elim (List-cases keys) [
          | inl nothing ↦ ground arith
          | inr (k, ks, e) ↦ ground (arith, lookup-insert tx.txid j (k ∷ ks) s.tx_prevouts)
        ];
      }

  pub remove_conflicts-keeps :
      (cs : List Tx) (s : TxPool)
      → IsIndexed s
      → IsIndexed (remove_conflicts size_of cs s) × IsPart (remove_conflicts size_of cs s) s
  unfolding remove_conflicts
  remove_conflicts-keeps [] s h = (h, λ j x e. e)
  remove_conflicts-keeps (c ∷ cs) s h =
      let (i, part, _) = remove_tx-IsIndexed s c.txid h in
      let (i', part') = remove_conflicts-keeps cs (remove_tx c.txid s).0 i in
      (i', λ j x e. part j x (part' j x e))

pub owners_of_complete :
    (keys : List Outpoint) (s : TxPool) (k : Outpoint) (t : ℕ) (tx : Tx)
    → member k keys ≡ true
    → lookup k s.prevout_index ≡ some t
    → lookup t s.pool ≡ some tx
    → member t (owners_of keys s) ≡ true
unfolding owners_of
owners_of_complete [] s k t tx m e p = ground arith
owners_of_complete (j ∷ keys) s k t tx m e p = elim (Option-cases (lookup j s.prevout_index)) [
  | inl absent ↦ ground (arith, owners_of_complete keys s k t tx, pair_eqb_iff j k)
  | inr (o, found) ↦
      ground (
        arith,
        owners_of_complete keys s k t tx,
        pair_eqb_iff j k,
        member-add o t (owners_of keys s),
      )
]

pub absent_part :
    (r s : TxPool) (t : ℕ) → IsPart r s → lookup t s.pool ≡ none → lookup t r.pool ≡ none
absent_part r s t part absent = elim (Option-cases (lookup t r.pool)) [
  | inl e ↦ e
  | inr (tx, e) ↦ absurd (ground (arith, part t tx e))
]
