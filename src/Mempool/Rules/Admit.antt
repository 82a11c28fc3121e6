-- ===== src/Mempool/Rules/Admit.antt =====
-- `add_valid_tx` of src/tsarchain/mempool/policy.py together with the check that it calls. It always
-- gives the check a height, that of the next block; `none` is an exception.
use graffiti_protocol.Base.{
  ℕ, ◌+◌, ◌≡◌, arith, Bool, true, false, List, [], Option, none, some, map, contains, nat_key,
  if◌then◌else◌, refl,
}
use graffiti_protocol.Ledger.{Tx}
use graffiti_protocol.Registry.{Registry}
use graffiti_protocol.Utxo.{Utxos}
use graffiti_protocol.Mempool.Pool.{TxPool, prevouts_of}
use graffiti_protocol.Mempool.Admit.{owners_of, pool_txs, add_tx, add_valid_tx}
use graffiti_protocol.Mempool.Rules.Outcome.{Answer, accepted, rejected, raised}
use graffiti_protocol.Mempool.Rules.Transaction.{
  Library, validate_tx_basic_guards, check_incoming, validate_natively, validate_transaction,
}

module _ (lib : Library) (reg : Registry) (store : Utxos) (tip : ℕ) where
  -- The check of a transaction next to those that wait.
  abbrev pub verdict : Tx → List Tx → Answer ℕ
  verdict tx pool =
      validate_transaction lib
        (record { registry = reg; pool = pool; store = store; tip_height = tip }) tx store
        (some (tip + 1))

  verdict_alone : (tx : Tx) (pool : List Tx) → verdict tx pool ≡ verdict tx []
  unfolding validate_transaction validate_tx_basic_guards validate_natively check_incoming
  verdict_alone tx pool = refl

  module _ (size_of : Tx → ℕ) where
    -- A transaction that is in the pool is not checked.
    unfoldable pub add_checked_tx : Tx → ℕ → TxPool → Option (TxPool × Bool)
    unfolding add_valid_tx
    add_checked_tx tx now s =
        if contains tx.txid s.pool
        then some (s, false)
        else (elim (verdict tx (map (λ (e : ℕ × Tx). e.1) s.pool)) [
          | accepted fee ↦ some (add_valid_tx size_of true (record tx { fee = fee }) now s)
          | rejected _ ↦ some (s, false)
          | raised ↦ none
        ])

    -- What waits does not count for the check: a transaction that passes it with nothing waiting is
    -- added to every pool that does not have it and whose index names no transaction for the outputs
    -- that it spends, however many graffiti posts wait there.
    pub posts_unlimited :
        (tx : Tx) (now fee : ℕ) (s : TxPool)
        → verdict tx [] ≡ accepted fee
        → contains tx.txid s.pool ≡ false
        → owners_of (prevouts_of tx.inputs) s ≡ []
        → add_checked_tx tx now s ≡ some (add_tx size_of (record tx { fee = fee }) now s, true)
    unfolding add_checked_tx add_valid_tx pool_txs
    posts_unlimited tx now fee s fine fresh free =
        ground (arith, verdict_alone tx (map (λ (e : ℕ × Tx). e.1) s.pool))
