-- ===== src/Mempool/Removal.antt =====
-- Removals of src/tsarchain/mempool/storage.py and the eviction of policy.py, which keep the index of
-- spent outputs.
use graffiti_protocol.Base.{
  ℕ, zero, suc, ◌+◌, ◌-◌, ◌≡◌, inl, inr, refl, arith, none, some, lookup, erase, member,
  lookup-erase, length, ltb, leb, eqb, nat_key, pair_key, if◌then◌else◌, Bool-cases, Option-cases,
  List-cases,
}
use graffiti_protocol.Ledger.{Tx, Outpoint}
use graffiti_protocol.Mempool.Pool.{
  Rate, TxPool, drop_tx_prevouts, mark_dirty, remove_fee_record, pop_size, take_out, remove_tx,
}
use graffiti_protocol.Mempool.Evict.{
  rate_eq, heap_pop, evict, evict_loop, ensure_space, mempool_max_size,
}
use graffiti_protocol.Mempool.Index.{
  spent_by, IsIndexed, drop_tx_prevouts-index, drop_tx_prevouts-noted,
}

-- `r` has lost what `t` had in `s`, and that only.
record Lost (s r : TxPool) (t : ℕ) (tx : Tx) : Type 0 where
  pool_without : (j : ℕ) → lookup j r.pool ≡ (if eqb t j then none else lookup j s.pool)
  index_without :
      (k : Outpoint)
      → lookup k r.prevout_index
        ≡ (if member k (spent_by tx) then none else lookup k s.prevout_index)
  notes_without :
      (j : ℕ) → lookup j r.tx_prevouts ≡ (if eqb t j then none else lookup j s.tx_prevouts)

Lost-IsIndexed :
    (s r : TxPool) (t : ℕ) (tx : Tx)
    → IsIndexed s
    → lookup t s.pool ≡ some tx
    → Lost s r t tx
    → IsIndexed r
Lost-IsIndexed s r t tx h there l = record {
  own_id = λ j x e. ground (arith, l.pool_without j, h.own_id j x);
  spends = λ j x k e m.
      ground (arith, l.pool_without j, l.index_without k, h.spends j x k, h.spends t tx k);
  owned = λ k j e.
      let index : lookup k s.prevout_index ≡ some j = ground (arith, l.index_without k) in
      let (x, pooled, spent) = h.owned k j index in
      (x, ground (arith, l.pool_without j, l.index_without k), spent);
  noted = λ j. ground (arith, l.notes_without j, l.pool_without j, h.noted j);
}

pub drop_tx_prevouts-pool : (tx : Tx) (s : TxPool) → (drop_tx_prevouts tx s).pool ≡ s.pool
unfolding drop_tx_prevouts
drop_tx_prevouts-pool tx s = elim (List-cases s.prevout_index) [
  | inl empty ↦ ground arith
  | inr (k, ks, e) ↦ ground arith
]

take_out-Lost :
    (s : TxPool) (t : ℕ) (tx : Tx)
    → IsIndexed s
    → lookup t s.pool ≡ some tx
    → Lost s (take_out t tx s) t tx
unfolding take_out remove_fee_record pop_size
take_out-Lost s t tx h there =
    let s' : TxPool = record s { pool = erase t s.pool } in
    record {
      pool_without = λ j. ground (arith, drop_tx_prevouts-pool tx s', lookup-erase t j s.pool);
      index_without = drop_tx_prevouts-index s s' tx t h there refl refl;
      notes_without = drop_tx_prevouts-noted s s' tx t h there refl refl;
    }

-- What a removal leaves is a part of what was there.
abbrev pub IsPart : TxPool → TxPool → Type 0
IsPart r s = (t : ℕ) (tx : Tx) → lookup t r.pool ≡ some tx → lookup t s.pool ≡ some tx

pub remove_tx-IsIndexed :
    (s : TxPool) (t : ℕ)
    → IsIndexed s
    → IsIndexed (remove_tx t s).0
      × IsPart (remove_tx t s).0 s
      × (lookup t (remove_tx t s).0.pool ≡ none)
unfolding remove_tx mark_dirty
remove_tx-IsIndexed s t h = elim (Option-cases (lookup t s.pool)) [
  | inl absent ↦ rw (absent, remove_tx) (h, λ j x e. e, absent)
  | inr (tx, there) ↦
      let r = take_out t tx s in
      let l = take_out-Lost s t tx h there in
      let i = Lost-IsIndexed s r t tx h there l in
      rw (there, remove_tx)
        (
          record { own_id = i.own_id; spends = i.spends; owned = i.owned; noted = i.noted },
          λ j x e. ground (arith, l.pool_without j),
          ground (arith, l.pool_without t),
        )
]

module _ (size_of : Tx → ℕ) where
  evict-keeps :
      (e : Rate × ℕ) (s : TxPool)
      → IsIndexed s
      → IsIndexed (evict size_of e s).0 × IsPart (evict size_of e s).0 s
  unfolding evict pop_size
  evict-keeps (rate, t) s h = elim (Option-cases (lookup t s.heap_entries)) [
    | inl absent ↦ rw (absent, evict) (h, λ j x e. e)
    | inr (entry_rate, listed) ↦ elim (Bool-cases (rate_eq entry_rate rate)) [
      | inr stale ↦ rw (listed, stale, evict) (h, λ j x e. e)
      | inl same ↦
          let s' : TxPool = record s {
            pool = erase t s.pool;
            heap_entries = erase t s.heap_entries;
          } in
          elim (Option-cases (lookup t s.pool)) [
            | inl absent ↦
                rw (listed, same, absent, evict)
                  (
                    record {
                      own_id = λ j x e. ground (arith, lookup-erase t j s.pool, h.own_id j x);
                      spends = λ j x k e m. ground (arith, lookup-erase t j s.pool, h.spends j x k);
                      owned = λ k j e.
                          let (x, pooled, spent) = h.owned k j e in
                          (x, ground (arith, lookup-erase t j s.pool), spent);
                      noted = λ j. ground (arith, lookup-erase t j s.pool, h.noted j);
                    },
                    λ j x e. ground (arith, lookup-erase t j s.pool),
                  )
            | inr (tx, there) ↦
                let l : Lost s (drop_tx_prevouts tx s') t tx = record {
                  pool_without =
                      λ j. ground (arith, drop_tx_prevouts-pool tx s', lookup-erase t j s.pool);
                  index_without = drop_tx_prevouts-index s s' tx t h there refl refl;
                  notes_without = drop_tx_prevouts-noted s s' tx t h there refl refl;
                } in
                let i = Lost-IsIndexed s (drop_tx_prevouts tx s') t tx h there l in
                rw (listed, same, there, evict)
                  (
                    record {
                      own_id = i.own_id;
                      spends = i.spends;
                      owned = i.owned;
                      noted = i.noted;
                    },
                    λ j x e. ground (arith, l.pool_without j),
                  )
          ]
    ]
  ]

  evict_loop-keeps :
      (fuel target freed : ℕ) (s : TxPool)
      → IsIndexed s
      → IsIndexed (evict_loop size_of fuel target freed s).0
        × IsPart (evict_loop size_of fuel target freed s).0 s
  unfolding evict_loop
  evict_loop-keeps zero target freed s h = (h, λ j x e. e)
  evict_loop-keeps (suc fuel) target freed s h = elim (List-cases s.fee_heap) [
    | inl empty ↦ rw (empty, evict_loop) (h, λ j x e. e)
    | inr (e, heap, full) ↦ elim (Bool-cases (ltb freed target)) [
      | inr enough ↦ rw (full, enough, evict_loop) (h, λ j x e. e)
      | inl more ↦
          let popped = heap_pop e heap in
          let s' : TxPool = record s { fee_heap = popped.1 } in
          let h' : IsIndexed s' = record {
            own_id = h.own_id;
            spends = h.spends;
            owned = h.owned;
            noted = h.noted;
          } in
          let step = evict size_of popped.0 s' in
          let (i, part) = evict-keeps popped.0 s' h' in
          let (i', part') = evict_loop-keeps fuel target (freed + step.1) step.0 i in
          rw (full, more, evict_loop) (i', λ j x p. part j x (part' j x p))
    ]
  ]

  pub ensure_space-keeps :
      (needed : ℕ) (s : TxPool)
      → IsIndexed s
      → IsIndexed (ensure_space size_of needed s) × IsPart (ensure_space size_of needed s) s
  unfolding ensure_space mark_dirty
  ensure_space-keeps needed s h = elim (Bool-cases (eqb needed 0)) [
    | inl nothing ↦ rw (nothing, ensure_space) (h, λ j x e. e)
    | inr something ↦ elim (Bool-cases (leb (s.current_size + needed) mempool_max_size)) [
      | inl fits ↦ rw (something, fits, ensure_space) (h, λ j x e. e)
      | inr over ↦
          let target = s.current_size + needed - mempool_max_size in
          let t = evict_loop size_of (length s.fee_heap) target 0 s in
          let (i, part) = evict_loop-keeps (length s.fee_heap) target 0 s h in
          elim (Bool-cases (ltb 0 t.1)) [
            | inr none_freed ↦ rw (something, over, none_freed, ensure_space) (i, part)
            | inl freed ↦
                rw (something, over, freed, ensure_space)
                  (
                    record {
                      own_id = i.own_id;
                      spends = i.spends;
                      owned = i.owned;
                      noted = i.noted;
                    },
                    part,
                  )
          ]
    ]
  ]
