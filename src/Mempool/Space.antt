-- ===== src/Mempool/Space.antt =====
-- The loop of `_ensure_space` of src/tsarchain/mempool/policy.py from start to end.
use graffiti_protocol.Base.{
  ℕ, zero, suc, ◌+◌, ◌-◌, ◌≤◌, ◌<◌, ◌≡◌, ◌⊎◌, inl, inr, refl, arith, List, [], ◌∷◌, length, lookup,
  Bool-cases, Option-cases, List-cases, nat_key,
}
use graffiti_protocol.Ledger.{Tx}
use graffiti_protocol.Mempool.Pool.{Rate, TxPool, drop_tx_prevouts, pop_size, mark_dirty}
use graffiti_protocol.Mempool.Evict.{
  mempool_max_size, heap_pop, rate_eq, evict, evict_loop, ensure_space,
}

length-heap_pop : (e : Rate × ℕ) (heap : List (Rate × ℕ)) → length (heap_pop e heap).1 ≡ length heap
unfolding heap_pop
length-heap_pop e [] = refl
length-heap_pop e (f ∷ heap) = ground (arith, length-heap_pop f heap)

drop_tx_prevouts-sizes :
    (tx : Tx) (s : TxPool)
    → ((drop_tx_prevouts tx s).current_size ≡ s.current_size)
      × ((drop_tx_prevouts tx s).fee_heap ≡ s.fee_heap)
unfolding drop_tx_prevouts
drop_tx_prevouts-sizes tx s = elim (List-cases s.prevout_index) [
  | inl empty ↦ ground arith
  | inr (k, ks, e) ↦ ground arith
]

module _ (size_of : Tx → ℕ) where
  evict-sizes :
      (e : Rate × ℕ) (s : TxPool)
      → ((evict size_of e s).0.current_size ≡ s.current_size - (evict size_of e s).1)
        × ((evict size_of e s).0.fee_heap ≡ s.fee_heap)
  unfolding evict pop_size
  evict-sizes (rate, txid) s = elim (Option-cases (lookup txid s.heap_entries)) [
    | inl absent ↦ ground arith
    | inr (entry_rate, there) ↦ elim (Bool-cases (rate_eq entry_rate rate)) [
      | inr stale ↦ ground arith
      | inl same ↦ elim (Option-cases (lookup txid s.pool)) [
        | inl absent ↦ ground arith
        | inr (tx, pooled) ↦ ground (arith, drop_tx_prevouts-sizes tx)
      ]
    ]
  ]

  evict_loop-frees :
      (fuel target freed : ℕ) (s : TxPool)
      → length s.fee_heap ≤ fuel
      → (freed ≤ (evict_loop size_of fuel target freed s).1)
        × ((evict_loop size_of fuel target freed s).0.current_size
            ≡ s.current_size - ((evict_loop size_of fuel target freed s).1 - freed))
        × ((target ≤ (evict_loop size_of fuel target freed s).1)
            ⊎ ((evict_loop size_of fuel target freed s).0.fee_heap ≡ []))
  unfolding evict_loop
  evict_loop-frees zero target freed s h = elim (List-cases s.fee_heap) [
    | inl empty ↦ ground arith
    | inr (e, heap, full) ↦ absurd (ground arith)
  ]
  evict_loop-frees (suc fuel) target freed s h = elim (List-cases s.fee_heap) [
    | inl empty ↦ ground arith
    | inr (e, heap, full) ↦
        let popped = heap_pop e heap in
        let s' : TxPool = record s { fee_heap = popped.1 } in
        let step = evict size_of popped.0 s' in
        ground (
          arith,
          length-heap_pop e heap,
          evict-sizes popped.0 s',
          evict_loop-frees fuel target (freed + step.1) step.0,
        )
  ]

  -- For a transaction that is not empty and no larger than the pool may be, there is room after `_ensure_space`, or
  -- there is no entry left to evict; the loop ends in any case.
  pub ensure_space_fits :
      (needed : ℕ) (s : TxPool)
      → 0 < needed
      → needed ≤ mempool_max_size
      → ((ensure_space size_of needed s).current_size + needed ≤ mempool_max_size)
        ⊎ ((ensure_space size_of needed s).fee_heap ≡ [])
  unfolding ensure_space mark_dirty
  ensure_space_fits needed s some_bytes fits =
      let target = s.current_size + needed - mempool_max_size in
      ground (arith, evict_loop-frees (length s.fee_heap) target 0 s)
