-- ===== src/Mempool/Evict.antt =====
-- Eviction by fee rate: `_ensure_space` of src/tsarchain/mempool/policy.py.
-- The heap is a list from which the least entry is taken; the loop runs on its length as fuel, since
-- each round takes one entry.
use graffiti_protocol.Base.{
  ℕ, zero, suc, ◌+◌, ◌-◌, ◌*◌, Bool, List, [], ◌∷◌, none, some, length, ltb, leb, eqb, ◌&&◌, ◌||◌,
  not, if◌then◌else◌, lookup, erase, nat_key,
}
use graffiti_protocol.Ledger.{Tx}
use graffiti_protocol.Mempool.Pool.{Rate, TxPool, drop_tx_prevouts, pop_size, mark_dirty}

abbrev pub mempool_max_size : ℕ
mempool_max_size = 2097152

unfoldable pub rate_lt : Rate → Rate → Bool
rate_lt (fee, size) (fee', size') = ltb (fee * size') (fee' * size)

unfoldable pub rate_eq : Rate → Rate → Bool
rate_eq (fee, size) (fee', size') = eqb (fee * size') (fee' * size)

-- The order of the pairs `(rate, txid)`.
unfoldable heap_lt : Rate × ℕ → Rate × ℕ → Bool
unfolding rate_lt rate_eq
heap_lt (rate, txid) (rate', txid') = rate_lt rate rate' || rate_eq rate rate' && ltb txid txid'

-- `heapq.heappop`: the least entry, and the others.
unfoldable pub heap_pop : Rate × ℕ → List (Rate × ℕ) → (Rate × ℕ) × List (Rate × ℕ)
unfolding heap_lt
heap_pop e [] = (e, [])
heap_pop e (f ∷ heap) =
    let lower = heap_pop f heap in
    if heap_lt lower.0 e then (lower.0, e ∷ lower.1) else (e, f ∷ heap)

module _ (size_of : Tx → ℕ) where
  -- One popped entry: what it frees, unless it is out of date.
  unfoldable pub evict : Rate × ℕ → TxPool → TxPool × ℕ
  unfolding rate_eq drop_tx_prevouts pop_size
  evict (rate, txid) s = elim (lookup txid s.heap_entries) [
    | none ↦ (s, 0)
    | some entry_rate ↦
        let t = record s { pool = erase txid s.pool; heap_entries = erase txid s.heap_entries } in
        if not (rate_eq entry_rate rate) then (s, 0) else (elim (lookup txid s.pool) [
          | none ↦ (t, 0)
          | some tx ↦ pop_size txid (size_of tx) (drop_tx_prevouts tx t)
        ])
  ]

  -- The loop: the state, and all that was freed.
  unfoldable pub evict_loop : ℕ → ℕ → ℕ → TxPool → TxPool × ℕ
  unfolding heap_pop evict
  evict_loop zero target freed s = (s, freed)
  evict_loop (suc fuel) target freed s = elim s.fee_heap [
    | [] ↦ (s, freed)
    | e ∷ heap ↦
        let popped = heap_pop e heap in
        let step = evict popped.0 (record s { fee_heap = popped.1 }) in
        let rest = evict_loop fuel target (freed + step.1) step.0 in
        if ltb freed target then rest else (s, freed)
  ]

  unfoldable pub ensure_space : ℕ → TxPool → TxPool
  unfolding evict_loop mark_dirty
  ensure_space needed_space s =
      let target = s.current_size + needed_space - mempool_max_size in
      let (t, freed) = evict_loop (length s.fee_heap) target 0 s in
      if eqb needed_space 0
      then s
      else (if leb (s.current_size + needed_space) mempool_max_size
          then s
          else (if ltb 0 freed then mark_dirty t else t))
