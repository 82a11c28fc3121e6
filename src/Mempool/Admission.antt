-- ===== src/Mempool/Admission.antt =====
-- `add_valid_tx` of src/tsarchain/mempool/policy.py, with the conflicts that it removes, and the index of
-- spent outputs.
use graffiti_protocol.Base.{
  ℕ, ◌≡◌, ◌⊎◌, inl, inr, ◌∙◌, ap, refl, arith, Bool, true, false, List, [], ◌∷◌, none, some, ◌||◌,
  lookup, contains, member, ltb, eqb, nat_key, pair_key, Bool-cases, Option-cases,
}
use graffiti_protocol.Ledger.{Tx, Outpoint}
use graffiti_protocol.Mempool.Pool.{TxPool, prevouts_of, maybe_flush_after_mutation, remove_tx}
use graffiti_protocol.Mempool.Evict.{ensure_space}
use graffiti_protocol.Mempool.Admit.{
  owners_of, pool_txs, replace_tx, add_tx, remove_conflicts, beats_rates, worst_fee, add_valid_tx,
}
use graffiti_protocol.Mempool.Index.{spent_by, noted_of, IsIndexed}
use graffiti_protocol.Mempool.Removal.{IsPart, remove_tx-IsIndexed, ensure_space-keeps}
use graffiti_protocol.Mempool.Joining.{
  same-IsIndexed, maybe_flush-same, Gained-IsIndexed, replace_tx-Gained, remove_conflicts-keeps,
  owners_of_complete, absent_part,
}

module _ (size_of : Tx → ℕ) where
  -- Removing the transactions that some ids have leaves none of the ids.
  remove_conflicts-gone :
      (ids : List ℕ) (s r : TxPool) (t : ℕ)
      → IsIndexed s
      → IsIndexed r
      → IsPart r s
      → member t ids ≡ true
      → lookup t (remove_conflicts size_of (pool_txs size_of ids s) r).pool ≡ none
  unfolding remove_conflicts pool_txs
  remove_conflicts-gone [] s r t h i part m = ground arith
  remove_conflicts-gone (c ∷ ids) s r t h i part m = elim (Option-cases (lookup c s.pool)) [
    | inl absent ↦
        rw (absent, pool_txs)
          (elim (Bool-cases (eqb c t)) [
            | inl same ↦
                let (_, kept) = remove_conflicts-keeps size_of (pool_txs size_of ids s) r i in
                let gone : lookup t s.pool ≡ none = ground arith in
                absent_part (remove_conflicts size_of (pool_txs size_of ids s) r) r t kept
                  (absent_part r s t part gone)
            | inr other ↦ remove_conflicts-gone ids s r t h i part (ground arith)
          ])
    | inr (tx, there) ↦
        let r' = (remove_tx tx.txid r).0 in
        let (i', part', gone) = remove_tx-IsIndexed r tx.txid i in
        rw (there, pool_txs)
          (elim (Bool-cases (eqb c t)) [
            | inl same ↦
                let (_, kept) = remove_conflicts-keeps size_of (pool_txs size_of ids s) r' i' in
                let here : lookup t r'.pool ≡ none = ground (arith, h.own_id c tx) in
                absent_part (remove_conflicts size_of (pool_txs size_of ids s) r') r' t kept here
            | inr other ↦
                remove_conflicts-gone ids s r' t h i' (λ j x e. part j x (part' j x e))
                  (ground arith)
          ])
  ]

  member-spent_by :
      (tx : Tx) (k : Outpoint)
      → member k (spent_by tx) ≡ true
      → member k (prevouts_of tx.inputs) ≡ true
  member-spent_by tx k m = ground arith

  -- Once the conflicts are out, nothing in what is left of the pool spends what the transaction spends.
  no_conflict :
      (s w : TxPool) (tx : Tx) (k : Outpoint)
      → IsIndexed s
      → IsIndexed w
      → IsPart w
          (remove_conflicts size_of (pool_txs size_of (owners_of (prevouts_of tx.inputs) s) s) s)
      → member k (spent_by tx) ≡ true
      → lookup k w.prevout_index ≡ none
  no_conflict s w tx k h i part m = elim (Option-cases (lookup k w.prevout_index)) [
    | inl e ↦ e
    | inr (t, e) ↦
        let ids = owners_of (prevouts_of tx.inputs) s in
        let r = remove_conflicts size_of (pool_txs size_of ids s) s in
        let (_, whole) = remove_conflicts-keeps size_of (pool_txs size_of ids s) s h in
        let (x, pooled, spent) = i.owned k t e in
        let before : lookup t s.pool ≡ some x = whole t x (part t x pooled) in
        let owner =
          owners_of_complete (prevouts_of tx.inputs) s k t x (member-spent_by tx k m)
            (h.spends t x k before spent) before in
        let gone = remove_conflicts-gone ids s s t h h (λ j y p. p) owner in
        absurd (ground (arith, part t x pooled))
  ]

  admitted-IsIndexed :
      (s : TxPool) (tx : Tx) (now : ℕ)
      → IsIndexed s
      → lookup tx.txid s.pool ≡ none
      → IsIndexed (
          add_tx size_of tx now
            (remove_conflicts size_of (pool_txs size_of (owners_of (prevouts_of tx.inputs) s) s) s))
  unfolding add_tx
  admitted-IsIndexed s tx now h fresh =
      let cs = pool_txs size_of (owners_of (prevouts_of tx.inputs) s) s in
      let r = remove_conflicts size_of cs s in
      let (ir, whole) = remove_conflicts-keeps size_of cs s h in
      let w = ensure_space size_of (size_of tx) r in
      let (iw, part) = ensure_space-keeps size_of (size_of tx) r ir in
      let absent = absent_part w r tx.txid part (absent_part r s tx.txid whole fresh) in
      let unnoted = iw.noted tx.txid ∙ ap noted_of absent in
      let u = replace_tx size_of tx w in
      let iu =
        Gained-IsIndexed w u tx iw absent (λ k m. no_conflict s w tx k h iw part m)
          (replace_tx-Gained size_of tx w absent unnoted) in
      let (p, x, n) = maybe_flush-same now u in
      same-IsIndexed u (maybe_flush_after_mutation now u) p x n iu

  refused_known :
      (valid : Bool) (tx : Tx) (now : ℕ) (s : TxPool)
      → contains tx.txid s.pool ≡ true
      → (add_valid_tx size_of valid tx now s).0 ≡ s
  unfolding add_valid_tx
  refused_known valid tx now s there = ground arith

  verdict_cases :
      (valid : Bool) (tx : Tx) (now : ℕ) (s : TxPool)
      → contains tx.txid s.pool ≡ false
      → (cs : List Tx) → pool_txs size_of (owners_of (prevouts_of tx.inputs) s) s ≡ cs
      → ((add_valid_tx size_of valid tx now s).0 ≡ s)
        ⊎ ((add_valid_tx size_of valid tx now s).0
            ≡ add_tx size_of tx now (remove_conflicts size_of cs s))
  unfolding add_valid_tx remove_conflicts
  verdict_cases false tx now s fresh cs e = inl (ground arith)
  verdict_cases true tx now s fresh [] e = inr (ground arith)
  verdict_cases true tx now s fresh (o ∷ os) e =
      elim (Bool-cases
        (beats_rates size_of tx (o ∷ os) || ltb (worst_fee size_of (o ∷ os)) tx.fee)) [
          | inl wins ↦ inr (ground arith)
          | inr loses ↦ inl (ground arith)
        ]

  add_valid_tx-cases :
      (valid : Bool) (tx : Tx) (now : ℕ) (s : TxPool)
      → ((add_valid_tx size_of valid tx now s).0 ≡ s)
        ⊎ (lookup tx.txid s.pool ≡ none)
          × ((add_valid_tx size_of valid tx now s).0
              ≡ add_tx size_of tx now (
                  remove_conflicts size_of
                    (pool_txs size_of (owners_of (prevouts_of tx.inputs) s) s)
                    s))
  add_valid_tx-cases valid tx now s = elim (Option-cases (lookup tx.txid s.pool)) [
    | inr (old, there) ↦ inl (refused_known valid tx now s (ground arith))
    | inl fresh ↦
        let cs = pool_txs size_of (owners_of (prevouts_of tx.inputs) s) s in
        elim (verdict_cases valid tx now s (ground arith) cs refl) [
          | inl same ↦ inl same
          | inr e ↦ inr (fresh, e)
        ]
  ]

  -- If the index of spent outputs fits the pool, then it fits after `add_valid_tx`, whatever the
  -- verdict, the conflicts and the evictions: it names for each output that the pool spends the one
  -- transaction that spends it, and nothing else.
  pub add_valid_tx-IsIndexed :
      (valid : Bool) (tx : Tx) (now : ℕ) (s : TxPool)
      → IsIndexed s
      → IsIndexed (add_valid_tx size_of valid tx now s).0
  add_valid_tx-IsIndexed valid tx now s h = elim (add_valid_tx-cases valid tx now s) [
    | inl same ↦ rw same h
    | inr (fresh, e) ↦ rw e (admitted-IsIndexed s tx now h fresh)
  ]

  -- If the index of spent outputs fits the pool, then after `add_valid_tx` no output is spent by two
  -- transactions of the pool.
  pub no_double_spend :
      (valid : Bool) (tx : Tx) (now : ℕ) (s : TxPool) (k : Outpoint) (t t' : ℕ) (x x' : Tx)
      → IsIndexed s
      → lookup t (add_valid_tx size_of valid tx now s).0.pool ≡ some x
      → lookup t' (add_valid_tx size_of valid tx now s).0.pool ≡ some x'
      → member k (spent_by x) ≡ true
      → member k (spent_by x') ≡ true
      → t ≡ t'
  no_double_spend valid tx now s k t t' x x' h p p' m m' =
      let i = add_valid_tx-IsIndexed valid tx now s h in
      let e = i.spends t x k p m in let e' = i.spends t' x' k p' m' in ground (arith, e, e')
