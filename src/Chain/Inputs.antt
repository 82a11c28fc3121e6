-- ===== src/Chain/Inputs.antt =====
-- The inputs that the loops of `_validate_subsequent_blocks` let through, of
-- src/tsarchain/consensus/chain_ops.py.
use graffiti_protocol.Base.{
  ℕ, ◌+◌, ◌≡◌, arith, false, List, [], ◌∷◌, some, lookup, member, pair_key, Option-cases, inl, inr,
}
use graffiti_protocol.Ledger.{Tx, TxIn, Outpoint}
use graffiti_protocol.Chain.Spend.{Coin, Coins, is_immature, spend_inputs, spend_txs}

-- The outpoints that the inputs name, pushed one by one.
abbrev push_inputs : List TxIn → List Outpoint → List Outpoint
push_inputs [] spent = spent
push_inputs (i ∷ inputs) spent = push_inputs inputs ((i.prev_txid, i.vout) ∷ spent)

abbrev pub push_txs : List Tx → List Outpoint → List Outpoint
push_txs [] spent = spent
push_txs (tx ∷ txs) spent = push_txs txs (push_inputs tx.inputs spent)

-- All different, and each one in the set and mature at the height.
abbrev pub AreSpendable : ℕ → Coins → List Outpoint → Type 0
AreSpendable h d [] = Unit {0}
AreSpendable h d (k ∷ spent) =
    (member k spent ≡ false)
    × ((c : Coin) × (lookup k d ≡ some c) × (is_immature h c ≡ false))
    × AreSpendable h d spent

spend_inputs-AreSpendable :
    (h : ℕ) (d : Coins) (inputs : List TxIn) (spent : List Outpoint) (acc : ℕ)
    (spent' : List Outpoint) (acc' : ℕ)
    → spend_inputs h d inputs spent acc ≡ some (spent', acc')
    → AreSpendable h d spent
    → (spent' ≡ push_inputs inputs spent) × AreSpendable h d (push_inputs inputs spent)
unfolding spend_inputs
spend_inputs-AreSpendable h d [] spent acc spent' acc' e a = (ground arith, a)
spend_inputs-AreSpendable h d (i ∷ inputs) spent acc spent' acc' e a =
    let k : Outpoint = (i.prev_txid, i.vout) in
    elim (Option-cases (lookup k d)) [
      | inl missing ↦ absurd (ground arith)
      | inr (c, found) ↦
          spend_inputs-AreSpendable h d inputs (k ∷ spent) (acc + c.amount) spent' acc'
            (ground arith) (ground arith, (c, found, ground arith), a)
    ]

-- If the loops accept the transactions of a block, then the outpoints that they report as spent are
-- exactly those that the inputs name; no two of them are the same, and each was in the set before
-- the block and is no immature coinbase.
pub spend_txs-AreSpendable :
    (h : ℕ) (d : Coins) (txs : List Tx) (spent spent' : List Outpoint) (checked : List Tx)
    → spend_txs h d txs spent ≡ some (spent', checked)
    → AreSpendable h d spent
    → (spent' ≡ push_txs txs spent) × AreSpendable h d (push_txs txs spent)
unfolding spend_txs
spend_txs-AreSpendable h d [] spent spent' checked e a = (ground arith, a)
spend_txs-AreSpendable h d (tx ∷ txs) spent spent' checked e a =
    elim (Option-cases (spend_inputs h d tx.inputs spent 0)) [
      | inl refused ↦ absurd (ground arith)
      | inr ((sp, in_sum), spends) ↦ elim (Option-cases (spend_txs h d txs sp)) [
        | inl refused ↦ absurd (ground arith)
        | inr ((sp', rest), others) ↦
            let (same, ok) = spend_inputs-AreSpendable h d tx.inputs spent 0 sp in_sum spends a in
            let (all, fine) =
              spend_txs-AreSpendable h d txs (push_inputs tx.inputs spent) sp' rest
                (rw same at others) ok in
            (ground (arith, all), fine)
      ]
    ]
