-- ===== src/Chain/Supply/Value.antt =====
-- What the ephemeral output set of `_validate_subsequent_blocks` is worth, output by output.
use graffiti_protocol.Base.{
  ℕ, ◌+◌, ◌≤◌, ◌≡◌, refl, arith, Bool, true, false, List, [], ◌∷◌, some, lookup, insert, erase,
  member, lookup-erase, pair_key, pair_eqb_iff,
}
use graffiti_protocol.Ledger.{TxOut, Tx, Outpoint, output_sum}
use graffiti_protocol.Chain.Spend.{Coin, Coins, remove_spent, add_outputs, add_txs, coins_value}
use graffiti_protocol.Chain.Validate.{genesis_outputs}

coins_value-erase-le : (k : Outpoint) (d : Coins) → coins_value (erase k d) ≤ coins_value d
coins_value-erase-le k [] = omega arith
coins_value-erase-le k ((j, c) ∷ d) = ground (arith, coins_value-erase-le k d)

-- Taking out an output takes out its amount.
coins_value-erase :
    (k : Outpoint) (d : Coins) (c : Coin)
    → lookup k d ≡ some c
    → coins_value (erase k d) + c.amount ≤ coins_value d
coins_value-erase k [] c e = ground arith
coins_value-erase k ((j, w) ∷ d) c e =
    ground (arith, coins_value-erase-le k d, coins_value-erase k d c)

coins_value-insert :
    (k : Outpoint) (c : Coin) (d : Coins) → coins_value (insert k c d) ≤ coins_value d + c.amount
coins_value-insert k c [] = omega arith
coins_value-insert k c ((j, w) ∷ d) = ground (arith, coins_value-insert k c d)

lookup-remove_spent :
    (k : Outpoint) (spent : List Outpoint) (d : Coins)
    → member k spent ≡ false
    → lookup k (remove_spent spent d) ≡ lookup k d
unfolding remove_spent
lookup-remove_spent k [] d h = refl
lookup-remove_spent k (j ∷ spent) d h = ground (
  arith,
  pair_eqb_iff j k,
  lookup-erase j k (remove_spent spent d),
  lookup-remove_spent k spent d,
)

-- A new outpoint among the spent ones takes out its amount.
pub coins_value-remove_spent :
    (k : Outpoint) (spent : List Outpoint) (d : Coins) (c : Coin)
    → member k spent ≡ false
    → lookup k d ≡ some c
    → coins_value (remove_spent (k ∷ spent) d) + c.amount ≤ coins_value (remove_spent spent d)
unfolding remove_spent
coins_value-remove_spent k spent d c new found =
    coins_value-erase k (remove_spent spent d) c (rw (lookup-remove_spent k spent d new) found)

coins_value-add_outputs :
    (txid : ℕ) (cb : Bool) (h idx : ℕ) (outs : List TxOut) (d : Coins)
    → coins_value (add_outputs txid cb h idx outs d) ≤ coins_value d + output_sum outs
unfolding add_outputs
coins_value-add_outputs txid cb h idx [] d = omega arith
coins_value-add_outputs txid cb h idx (o ∷ outs) d =
    let c : Coin = record { amount = o.amount; height = h; is_coinbase = cb } in
    ground (
      arith,
      coins_value-add_outputs txid cb h (idx + 1) outs d,
      coins_value-add_outputs txid cb h (idx + 1) outs (insert (txid, idx) c d),
      coins_value-insert (txid, idx) c d,
    )

-- What all the outputs of some transactions are worth.
abbrev pub outputs_of : List Tx → ℕ
outputs_of [] = 0
outputs_of (tx ∷ txs) = output_sum tx.outputs + outputs_of txs

pub coins_value-add_txs :
    (h : ℕ) (txs : List Tx) (d : Coins)
    → coins_value (add_txs h txs d) ≤ coins_value d + outputs_of txs
unfolding add_txs
coins_value-add_txs h [] d = omega arith
coins_value-add_txs h (tx ∷ txs) d = omega (
  arith,
  coins_value-add_txs h txs (add_outputs tx.txid tx.is_coinbase h 0 tx.outputs d),
  coins_value-add_outputs tx.txid tx.is_coinbase h 0 tx.outputs d,
)

pub coins_value-genesis_outputs :
    (txid idx : ℕ) (outs : List TxOut) (d : Coins)
    → coins_value (genesis_outputs txid idx outs d) ≤ coins_value d + output_sum outs
unfolding genesis_outputs
coins_value-genesis_outputs txid idx [] d = omega arith
coins_value-genesis_outputs txid idx (o ∷ outs) d =
    let c : Coin = record { amount = o.amount; height = 0; is_coinbase = true } in
    omega (
      arith,
      coins_value-genesis_outputs txid (idx + 1) outs (insert (txid, idx) c d),
      coins_value-insert (txid, idx) c d,
    )

pub remove_spent-nil : (d : Coins) → remove_spent [] d ≡ d
unfolding remove_spent
remove_spent-nil d = refl
