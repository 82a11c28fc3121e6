-- ===== src/Chain/Supply/Txs.antt =====
-- The same for the loops over the inputs and the transactions of one block.
use graffiti_protocol.Base.{
  ℕ, ◌+◌, ◌-◌, ◌≤◌, ◌≡◌, arith, List, [], ◌∷◌, some, lookup, min, pair_key, pos, sum_by,
  Option-cases, inl, inr,
}
use graffiti_protocol.Config.{max_supply}
use graffiti_protocol.Ledger.{Tx, TxIn, Outpoint}
use graffiti_protocol.Rewards.{scheduled_reward}
use graffiti_protocol.Chain.Spend.{Coins, spend_inputs, spend_txs, remove_spent, coins_value}
use graffiti_protocol.Chain.Validate.{connect_txs}
use graffiti_protocol.Chain.Supply.Value.{
  coins_value-remove_spent, outputs_of, coins_value-add_txs, remove_spent-nil,
}

-- The amounts that the inputs add up to are taken out of the set, no output twice.
spend_inputs-value :
    (h : ℕ) (d : Coins) (inputs : List TxIn) (spent : List Outpoint) (acc : ℕ)
    (spent' : List Outpoint) (acc' : ℕ)
    → spend_inputs h d inputs spent acc ≡ some (spent', acc')
    → coins_value (remove_spent spent' d) + acc' ≤ coins_value (remove_spent spent d) + acc
unfolding spend_inputs
spend_inputs-value h d [] spent acc spent' acc' e = ground arith
spend_inputs-value h d (i ∷ inputs) spent acc spent' acc' e =
    let k : Outpoint = (i.prev_txid, i.vout) in
    elim (Option-cases (lookup k d)) [
      | inl missing ↦ absurd (ground arith)
      | inr (c, found) ↦ ground (
        arith,
        coins_value-remove_spent k spent d c,
        spend_inputs-value h d inputs (k ∷ spent) (acc + c.amount) spent' acc',
      )
    ]

-- Over the checked transactions, what is spent is what is put out and what is paid in fees.
spend_txs-value :
    (h : ℕ) (d : Coins) (txs : List Tx) (spent spent' : List Outpoint) (checked : List Tx)
    → spend_txs h d txs spent ≡ some (spent', checked)
    → coins_value (remove_spent spent' d) + outputs_of checked + sum_by (λ t. t.fee) checked
      ≤ coins_value (remove_spent spent d)
unfolding spend_txs
spend_txs-value h d [] spent spent' checked e = ground arith
spend_txs-value h d (tx ∷ txs) spent spent' checked e =
    elim (Option-cases (spend_inputs h d tx.inputs spent 0)) [
      | inl refused ↦ absurd (ground arith)
      | inr ((sp, in_sum), spends) ↦ elim (Option-cases (spend_txs h d txs sp)) [
        | inl refused ↦ absurd (ground arith)
        | inr ((sp', rest), others) ↦ ground (
          arith,
          spend_inputs-value h d tx.inputs spent 0 sp in_sum spends,
          spend_txs-value h d txs sp sp' rest others,
        )
      ]
    ]

-- The rules for one block keep the worth of the set within the supply, and mint the block's reward.
pub connect_txs-value :
    (h : ℕ) (txs : List Tx) (d : Coins) (supply : ℕ) (d' : Coins) (supply' : ℕ)
    → connect_txs h txs (d, supply) ≡ some (d', supply')
    → coins_value d ≤ supply
    → (coins_value d' ≤ supply')
      × (supply' ≡ supply + min (scheduled_reward (pos h)) (max_supply - supply))
unfolding connect_txs
connect_txs-value h [] d supply d' supply' e v = ground arith
connect_txs-value h (cb ∷ txs) d supply d' supply' e v =
    elim (Option-cases (spend_txs h d txs [])) [
      | inl refused ↦ absurd (ground arith)
      | inr ((sp, checked), spends) ↦ ground (
        arith,
        remove_spent-nil d,
        spend_txs-value h d txs [] sp checked spends,
        coins_value-add_txs h (cb ∷ checked) (remove_spent sp d),
      )
    ]
