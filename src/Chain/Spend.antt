-- ===== src/Chain/Spend.antt =====
-- The ephemeral output set of `_validate_subsequent_blocks`, and the loops over a block's
-- transactions that spend from it and add to it.
use graffiti_protocol.Base.{
  ℕ, ◌+◌, ◌-◌, Bool, List, [], ◌∷◌, Option, none, some, sum_by, ltb, if◌then◌else◌, Dict, lookup,
  insert, erase, member, ◌&&◌, pair_key,
}
use graffiti_protocol.Config.{coinbase_maturity}
use graffiti_protocol.Ledger.{Tx, TxIn, TxOut, Outpoint, is_opreturn, output_sum}

pub record Coin : Type 0 where
  pub amount : ℕ
  pub height : ℕ
  pub is_coinbase : Bool

abbrev pub Coins : Type 0
Coins = Dict Outpoint Coin

-- `entry.get("is_coinbase") and (cur_height - entry.get("height", 0)) < CFG.COINBASE_MATURITY`
unfoldable pub is_immature : ℕ → Coin → Bool
is_immature cur_height coin = coin.is_coinbase && ltb (cur_height - coin.height) coinbase_maturity

-- The loop over `tx.inputs`: `spent_in_block` and `tx_in_sum` afterwards, or `none` for a refusal.
unfoldable pub spend_inputs : ℕ → Coins → List TxIn → List Outpoint → ℕ → Option (List Outpoint × ℕ)
spend_inputs cur_height coins [] spent tx_in_sum = some (spent, tx_in_sum)
spend_inputs cur_height coins (txin ∷ inputs) spent tx_in_sum =
    let outpoint : Outpoint = (txin.prev_txid, txin.vout) in
    if member outpoint spent then none else (elim (lookup outpoint coins) [
      | none ↦ none
      | some coin ↦
          let rest =
            spend_inputs cur_height coins inputs (outpoint ∷ spent) (tx_in_sum + coin.amount) in
          if is_immature cur_height coin then none else rest
    ])

-- The loop over `txs[1:]`: the spent outpoints, and the transactions with their fees.
unfoldable pub spend_txs : ℕ → Coins → List Tx → List Outpoint → Option (List Outpoint × List Tx)
unfolding spend_inputs
spend_txs cur_height coins [] spent = some (spent, [])
spend_txs cur_height coins (tx ∷ txs) spent =
    elim (spend_inputs cur_height coins tx.inputs spent 0) [
      | none ↦ none
      | some (spent', tx_in_sum) ↦
          let tx_out_sum = output_sum tx.outputs in
          let rest = spend_txs cur_height coins txs spent' in
          if ltb tx_in_sum tx_out_sum then none else (elim rest [
            | none ↦ none
            | some (spent'', checked) ↦
                some (spent'', record tx { fee = tx_in_sum - tx_out_sum } ∷ checked)
          ])
    ]

-- `for outpoint in spent_in_block: temp_utxos.pop(outpoint, None)`
unfoldable pub remove_spent : List Outpoint → Coins → Coins
remove_spent [] coins = coins
remove_spent (outpoint ∷ spent) coins = erase outpoint (remove_spent spent coins)

-- The outputs of one transaction from index `idx` on, without the OP_RETURN ones.
unfoldable pub add_outputs : ℕ → Bool → ℕ → ℕ → List TxOut → Coins → Coins
add_outputs txid is_cb cur_height idx [] coins = coins
add_outputs txid is_cb cur_height idx (out ∷ outputs) coins =
    let coin : Coin = record { amount = out.amount; height = cur_height; is_coinbase = is_cb } in
    add_outputs txid is_cb cur_height (idx + 1) outputs
      (if is_opreturn out.script_pubkey then coins else insert (txid, idx) coin coins)

unfoldable pub add_txs : ℕ → List Tx → Coins → Coins
unfolding add_outputs
add_txs cur_height [] coins = coins
add_txs cur_height (tx ∷ txs) coins =
    add_txs cur_height txs (add_outputs tx.txid tx.is_coinbase cur_height 0 tx.outputs coins)

-- What all the outputs of the set are worth.
abbrev pub coins_value : Coins → ℕ
coins_value = sum_by (λ c. c.1.amount)
