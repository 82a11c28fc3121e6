-- ===== src/Mempool/Tests.antt =====
-- A full pool that makes room.
use graffiti_protocol.Base.{
  none, refl, true, some, ℕ, lookup, member, nat_key, pair_key, ◌+◌, ◌≤◌, ◌≡◌, ◌⊎◌, arith, false,
  [], ◌∷◌,
}
use graffiti_protocol.Ledger.{Tx}
use graffiti_protocol.Mempool.Pool.{TxPool, prevouts_of, remove_tx, take_out}
use graffiti_protocol.Mempool.Evict.{mempool_max_size, ensure_space}
use graffiti_protocol.Mempool.Admit.{add_valid_tx, add_tx, replace_tx, remove_conflicts}
use graffiti_protocol.Mempool.Index.{spent_by, IsIndexed}
use graffiti_protocol.Mempool.Admission.{add_valid_tx-IsIndexed, no_double_spend}
use graffiti_protocol.Mempool.Space.{ensure_space_fits}

abbrev tx_of : ℕ → ℕ → Tx
tx_of txid fee = record {
  txid = txid;
  is_coinbase = false;
  inputs = record { prev_txid = 100 + txid; vout = 0; script_sig = []; witness = [] } ∷ [];
  outputs = [];
  fee = fee;
  block_id = none;
}

abbrev full : TxPool
full = record {
  pool = (1, tx_of 1 50) ∷ (2, tx_of 2 9) ∷ [];
  size_map = (1, 1048576) ∷ (2, 1048576) ∷ [];
  prevout_index = ((101, 0), 1) ∷ ((102, 0), 2) ∷ [];
  tx_prevouts = (1, (101, 0) ∷ []) ∷ (2, (102, 0) ∷ []) ∷ [];
  fee_heap = ((50, 1048576), 1) ∷ ((9, 1048576), 2) ∷ [];
  heap_entries = (1, (50, 1048576)) ∷ (2, (9, 1048576)) ∷ [];
  current_size = 2097152;
  dirty = false;
  change_seq = 0;
  last_flush = 0;
  stored = [];
}

ensure_space_fits_example :
    ((ensure_space (λ _. 1048576) 500 full).current_size + 500 ≤ mempool_max_size)
    ⊎ ((ensure_space (λ _. 1048576) 500 full).fee_heap ≡ [])
ensure_space_fits_example = ensure_space_fits (λ _. 1048576) 500 full (omega arith) (omega arith)

-- A transaction enters an empty pool; another one that spends the same output pays more.
abbrev empty : TxPool
empty = record {
  pool = [];
  size_map = [];
  prevout_index = [];
  tx_prevouts = [];
  fee_heap = [];
  heap_entries = [];
  current_size = 0;
  dirty = false;
  change_seq = 0;
  last_flush = 0;
  stored = [];
}

empty-IsIndexed : IsIndexed empty
empty-IsIndexed = record {
  own_id = λ t x e. ground arith;
  spends = λ t x k e m. ground arith;
  owned = λ k t e. absurd (ground arith);
  noted = λ t. refl;
}

abbrev one : TxPool
one = (add_valid_tx (λ _. 100) true (tx_of 1 50) 0 empty).0

one-IsIndexed : IsIndexed one
one-IsIndexed = add_valid_tx-IsIndexed (λ _. 100) true (tx_of 1 50) 0 empty empty-IsIndexed

abbrev rival : Tx
rival = record (tx_of 2 80) { inputs = (tx_of 1 50).inputs }

add_valid_tx-IsIndexed_example : IsIndexed (add_valid_tx (λ _. 100) true rival 1 one).0
add_valid_tx-IsIndexed_example = add_valid_tx-IsIndexed (λ _. 100) true rival 1 one one-IsIndexed

rival_wins : lookup 2 (add_valid_tx (λ _. 100) true rival 1 one).0.pool ≡ some rival
unfolding add_valid_tx add_tx ensure_space replace_tx remove_conflicts remove_tx take_out
rival_wins = refl

rival_spends : member (101, 0) (spent_by rival) ≡ true
unfolding prevouts_of
rival_spends = refl

no_double_spend_example : rival.txid ≡ 2
no_double_spend_example =
    no_double_spend (λ _. 100) true rival 1 one (101, 0) 2 2 rival rival one-IsIndexed rival_wins
      rival_wins rival_spends rival_spends
