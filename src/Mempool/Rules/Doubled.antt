-- ===== src/Mempool/Rules/Doubled.antt =====
-- A payout that names its inputs twice.
use graffiti_protocol.Base.{
  ℕ, ◌+◌, ◌-◌, ◌≤◌, ◌≡◌, ◌∙◌, ap, arith, inl, inr, List, [], ◌∷◌, ◌++◌, Option-cases,
}
use graffiti_protocol.Ledger.{Tx, TxIn, output_sum}
use graffiti_protocol.Script.{Bytes}
use graffiti_protocol.Utxo.{Utxos}
use graffiti_protocol.Mempool.Rules.Outcome.{accepted, >>=-accepted}
use graffiti_protocol.Mempool.Rules.Payout.{
  lookup_utxo_entry, check_pool_entry, check_pool_inputs, validate_payout_inputs,
}
use graffiti_protocol.Mempool.Rules.Funded.{check_pool_inputs-SpendsPool}

check_pool_inputs-append :
    (hash : Bytes) (snapshot store : Utxos) (xs ys : List TxIn) (total_in total : ℕ)
    → check_pool_inputs hash snapshot store xs total_in ≡ accepted total
    → check_pool_inputs hash snapshot store (xs ++ ys) total_in
      ≡ check_pool_inputs hash snapshot store ys total
unfolding check_pool_inputs
check_pool_inputs-append hash snapshot store [] ys total_in total h = ground arith
check_pool_inputs-append hash snapshot store (txin ∷ xs) ys total_in total h =
    elim (Option-cases (lookup_utxo_entry snapshot store txin)) [
      | inl missing ↦ absurd (ground arith)
      | inr (entry, found) ↦
          let more = total_in + entry.tx_out.amount in
          let (u, ours, h1) =
            >>=-accepted (check_pool_entry hash entry)
              (λ _. check_pool_inputs hash snapshot store xs more) total (ground arith) in
          ground (arith, check_pool_inputs-append hash snapshot store xs ys more total h1)
    ]

check_pool_inputs-shift :
    (hash : Bytes) (snapshot store : Utxos) (xs : List TxIn) (a b total : ℕ)
    → check_pool_inputs hash snapshot store xs a ≡ accepted (a + total)
    → check_pool_inputs hash snapshot store xs b ≡ accepted (b + total)
unfolding check_pool_inputs
check_pool_inputs-shift hash snapshot store [] a b total h =
    let zero_left : total ≡ 0 = ground arith in rw zero_left (ap accepted (omega arith))
check_pool_inputs-shift hash snapshot store (txin ∷ xs) a b total h =
    elim (Option-cases (lookup_utxo_entry snapshot store txin)) [
      | inl missing ↦ absurd (ground arith)
      | inr (entry, found) ↦
          let n = entry.tx_out.amount in
          let (u, ours, h1) =
            >>=-accepted (check_pool_entry hash entry)
              (λ _. check_pool_inputs hash snapshot store xs (a + n)) (a + total) (ground arith) in
          let (_, sum) =
            check_pool_inputs-SpendsPool hash snapshot store xs (a + n) (a + total) h1 in
          let rest = total - n in
          let e : a + total ≡ a + n + rest = omega (arith, sum) in
          let e' : b + n + rest ≡ b + total = omega (arith, sum) in
          let ih =
            check_pool_inputs-shift hash snapshot store xs (a + n) (b + n) rest (h1 ∙ ap accepted e)
            ∙ ap accepted e' in
          ground (arith, ih)
    ]

-- The inputs of a payout are not compared with one another: if some inputs pass and are worth a total,
-- then a payout that names each of them twice passes too, is taken to spend twice the total, and may
-- pay out that much.
pub validate_payout_inputs-doubled :
    (hash : Bytes) (snapshot store : Utxos) (tx : Tx) (inputs : List TxIn) (total : ℕ)
    → check_pool_inputs hash snapshot store inputs 0 ≡ accepted total
    → tx.inputs ≡ inputs ++ inputs
    → output_sum tx.outputs ≤ total + total
    → validate_payout_inputs hash snapshot store tx
      ≡ accepted (total + total - output_sum tx.outputs)
unfolding validate_payout_inputs
validate_payout_inputs-doubled hash snapshot store tx inputs total h twice le =
    let start : check_pool_inputs hash snapshot store inputs 0 ≡ accepted (0 + total) =
      h ∙ ap accepted (omega arith) in
    let both : check_pool_inputs hash snapshot store tx.inputs 0 ≡ accepted (total + total) =
      ap (λ l. check_pool_inputs hash snapshot store l 0) twice
      ∙ check_pool_inputs-append hash snapshot store inputs inputs 0 total h
      ∙ check_pool_inputs-shift hash snapshot store inputs 0 total total start in
    rw both (ground arith)
