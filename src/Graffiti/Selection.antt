-- ===== src/Graffiti/Selection.antt =====
-- When a payout is made.
use mathlib.Core.List.{append_assoc}
use mathlib.Core.Path.{subst}
use graffiti_protocol.Base.{
  ℕ, ◌+◌, ◌-◌, ◌≤◌, ◌≡◌, ◌∙◌, ap, sym, refl, arith, inl, inr, Bool, true, false, List, [], ◌∷◌,
  ◌++◌, some, leb, if◌then◌else◌, Bool-cases,
}
use graffiti_protocol.Ledger.{Tx, TxOut}
use graffiti_protocol.Graffiti.Payer.{
  PoolUtxo, Recipients, PayerTools, Request, needed, available, build_opret, pay_outputs,
  change_output, estimate_fee, spend_pool, select_utxos, payout_select_utxos,
}
use graffiti_protocol.Graffiti.Balanced.{IsBalanced, select-IsBalanced}

module _ (o : PayerTools) (q : Request) where
  -- An estimate fails only where the metadata do not fit.
  estimate_lem :
      (spent : List PoolUtxo) (b : Bool) (rec_list : Recipients) (opret : TxOut)
      → build_opret o q rec_list ≡ some opret
      → (fee : ℕ) × (estimate_fee o q spent b rec_list ≡ some fee)
  unfolding estimate_fee
  estimate_lem spent b rec_list opret h = rw h (_, refl)

  select-ends :
      (rec_list : Recipients) (opret : TxOut) (u : PoolUtxo) (us selected : List PoolUtxo) (fee : ℕ)
      → build_opret o q rec_list ≡ some opret
      → estimate_fee o q (selected ++ u ∷ us) false rec_list ≡ some fee
      → needed rec_list + fee ≤ available (selected ++ u ∷ us)
      → (r : List PoolUtxo × ℕ) × (select_utxos o q rec_list (u ∷ us) selected ≡ some r)
  unfolding select_utxos
  select-ends rec_list opret u [] selected fee built e le =
      let sel = selected ++ u ∷ [] in
      let (with_change, w) = estimate_lem sel true rec_list opret built in
      elim (Bool-cases (leb (needed rec_list + with_change + q.dust) (available sel))) [
        | inl enough ↦ ((sel, available sel - needed rec_list - with_change), ground arith)
        | inr short ↦ ((sel, 0), ground arith)
      ]
  select-ends rec_list opret u (v ∷ us) selected fee built e le =
      let sel = selected ++ u ∷ [] in
      let (with_change, w) = estimate_lem sel true rec_list opret built in
      let (no_change, n) = estimate_lem sel false rec_list opret built in
      let on : sel ++ v ∷ us ≡ selected ++ u ∷ v ∷ us = append_assoc selected (u ∷ []) (v ∷ us) in
      let (r, found) =
        select-ends rec_list opret v us sel fee built
          (ap (λ l. estimate_fee o q l false rec_list) on ∙ e)
          (subst (λ l. needed rec_list + fee ≤ available l) (sym on) le) in
      elim (Bool-cases (leb (needed rec_list + with_change + q.dust) (available sel))) [
        | inl enough ↦ ((sel, available sel - needed rec_list - with_change), ground arith)
        | inr short ↦ elim (Bool-cases (leb (needed rec_list + no_change) (available sel))) [
          | inl fits ↦ ((sel, 0), ground arith)
          | inr more ↦ (r, ground arith)
        ]
      ]

  -- The selection gives up only when all the outputs together are too little: if the metadata fit, and
  -- all the outputs are worth what the recipients ask for and the estimated fee of spending them all
  -- without change, then a payout is made.
  pub payout_select_utxos_ends :
      (u : PoolUtxo) (us : List PoolUtxo) (rec_list : Recipients) (opret : TxOut) (fee : ℕ)
      → build_opret o q rec_list ≡ some opret
      → estimate_fee o q (u ∷ us) false rec_list ≡ some fee
      → needed rec_list + fee ≤ available (u ∷ us)
      → (tx : Tx) × (spent : List PoolUtxo) × (payout_select_utxos o q (u ∷ us) rec_list
          ≡ some (tx, spent))
        × IsBalanced o q tx spent
  payout_select_utxos_ends u us rec_list opret fee built e le =
      let ((sel, change), found) = select-ends rec_list opret u us [] fee built e le in
      let outs =
        (if leb q.dust change then change_output o q change ∷ [] else [])
        ++ (pay_outputs o q (λ n. n) rec_list ++ opret ∷ []) in
      let made : payout_select_utxos o q (u ∷ us) rec_list ≡ some (spend_pool o q sel outs, sel) =
        unfold payout_select_utxos in ground arith in
      (spend_pool o q sel outs, sel, made, select-IsBalanced o q (u ∷ us) rec_list _ sel made)
