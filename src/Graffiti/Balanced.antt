-- ===== src/Graffiti/Balanced.antt =====
-- What a payout spends and pays.
use mathlib.Core.List.{append_assoc}
use mathlib.Core.Path.{subst}
use graffiti_protocol.Base.{
  ℕ, leb→le, ◌∙◌, ap, sym, ◌+◌, ◌-◌, ◌≤◌, ◌≡◌, ◌⊎◌, refl, arith, inl, inr, Bool, true, false, List,
  [], ◌∷◌, ◌++◌, some, leb, >>=-some, if◌then◌else◌, Bool-cases, Option-cases, sum_by-append,
}
use graffiti_protocol.Ledger.{Tx, TxOut, output_sum}
use graffiti_protocol.Graffiti.Payer.{
  build_payout_metadata, build_script, PoolUtxo, Recipients, PayerTools, Request, needed, available,
  build_inputs, build_opret, pay_outputs, change_output, estimate_fee, spend_pool, select_utxos,
  payout_select_utxos,
}

module _ (o : PayerTools) (q : Request) where
  pay_outputs-sum :
      (rec_list : Recipients) → output_sum (pay_outputs o q (λ n. n) rec_list) ≡ needed rec_list
  pay_outputs-sum [] = refl
  pay_outputs-sum (r ∷ rs) = omega (arith, pay_outputs-sum rs)

  pub opret-free :
      (rec_list : Recipients) (opret : TxOut)
      → build_opret o q rec_list ≡ some opret
      → opret.amount ≡ 0
  unfolding build_opret
  opret-free rec_list opret h =
      let (meta, a, h1) =
        >>=-some (build_payout_metadata o.texts q.art_id q.epoch rec_list q.proof_fields) _ opret
          h in
      let (script, b, h2) = >>=-some (build_script o.texts o.dumps meta) _ opret h1 in ground arith

  -- The transaction spends what is given with it, pays no more than that, leaves the rest as its fee,
  -- and the fee is no less than an estimate for these inputs.
  abbrev pub IsBalanced : Tx → List PoolUtxo → Type 0
  IsBalanced tx spent =
      (tx.inputs ≡ build_inputs o q spent)
      × (output_sum tx.outputs + tx.fee ≡ available spent)
      × ((b : Bool) × (rec_list : Recipients) × (fee : ℕ) × (estimate_fee o q spent b rec_list
            ≡ some fee)
          × (fee ≤ tx.fee))

  spend_pool-IsBalanced :
      (spent : List PoolUtxo) (outs : List TxOut) (b : Bool) (rec_list : Recipients) (fee : ℕ)
      → estimate_fee o q spent b rec_list ≡ some fee
      → output_sum outs + fee ≤ available spent
      → IsBalanced (spend_pool o q spent outs) spent
  unfolding spend_pool
  spend_pool-IsBalanced spent outs b rec_list fee e le =
      (refl, omega (arith, le), (b, rec_list, fee, e, omega (arith, le)))

  -- The change that goes with an estimate: no less than the dust, or none.
  abbrev pub Fits : Bool → ℕ → Type 0
  Fits true change = q.dust ≤ change
  Fits false change = change ≡ 0

  -- What one more output comes to: it is enough, with change or without, or the search goes on.
  select_step :
      (rec_list : Recipients) (u : PoolUtxo) (us selected spent : List PoolUtxo) (change : ℕ)
      → select_utxos o q rec_list (u ∷ us) selected ≡ some (spent, change)
      → ((b : Bool) × (fee : ℕ) × (estimate_fee o q spent b rec_list ≡ some fee)
          × (needed rec_list + change + fee ≤ available spent)
          × Fits b change
          × (selected ++ u ∷ [] ≡ spent))
        ⊎ (select_utxos o q rec_list us (selected ++ u ∷ []) ≡ some (spent, change))
  unfolding select_utxos
  select_step rec_list u us selected spent change h =
      let sel = selected ++ u ∷ [] in
      elim (Option-cases (estimate_fee o q sel true rec_list)) [
        | inl fails ↦ absurd (ground arith)
        | inr (with_change, e) ↦
            elim (Bool-cases (leb (needed rec_list + with_change + q.dust) (available sel))) [
              | inl enough ↦
                  let same : sel ≡ spent = ground arith in
                  let left : available sel - needed rec_list - with_change ≡ change =
                    ground arith in
                  let le = leb→le (needed rec_list + with_change + q.dust) (available sel) enough in
                  inl (
                    true,
                    with_change,
                    ground arith,
                    rw (← same) (omega (arith, left, le)),
                    omega (arith, left, le),
                    same,
                  )
              | inr short ↦ elim (Option-cases (estimate_fee o q sel false rec_list)) [
                | inl fails ↦ absurd (ground arith)
                | inr (no_change, e') ↦
                    elim (Bool-cases (leb (needed rec_list + no_change) (available sel))) [
                      | inl enough ↦
                          let same : sel ≡ spent = ground arith in
                          let left : 0 ≡ change = ground arith in
                          let le = leb→le (needed rec_list + no_change) (available sel) enough in
                          inl (
                            false,
                            no_change,
                            ground arith,
                            rw (← same) (omega (arith, left, le)),
                            sym left,
                            same,
                          )
                      | inr more ↦ inr (ground arith)
                    ]
              ]
            ]
      ]

  -- What is selected is in front, and covers the recipients, the change and an estimated fee.
  pub select_lem :
      (rec_list : Recipients) (utxos selected spent : List PoolUtxo) (change : ℕ)
      → select_utxos o q rec_list utxos selected ≡ some (spent, change)
      → (b : Bool) × (fee : ℕ) × (rest : List PoolUtxo) × (estimate_fee o q spent b rec_list
          ≡ some fee)
        × (needed rec_list + change + fee ≤ available spent)
        × Fits b change
        × (selected ++ utxos ≡ spent ++ rest)
  select_lem rec_list [] selected spent change h = absurd (unfold select_utxos in ground arith)
  select_lem rec_list (u ∷ us) selected spent change h =
      let on = sym (append_assoc selected (u ∷ []) us) in
      elim (select_step rec_list u us selected spent change h) [
        | inl (b, fee, e, le, fits, same) ↦ (b, fee, us, e, le, fits, on ∙ ap (λ l. l ++ us) same)
        | inr later ↦
            let (b, fee, rest, e, le, fits, split) =
              select_lem rec_list us (selected ++ u ∷ []) spent change later in
            (b, fee, rest, e, le, fits, on ∙ split)
      ]

  pub outs_sum :
      (change : ℕ) (rec_list : Recipients) (opret : TxOut)
      → opret.amount ≡ 0
      → output_sum (
          (if leb q.dust change then change_output o q change ∷ [] else [])
          ++ (pay_outputs o q (λ n. n) rec_list ++ opret ∷ []))
        ≤ needed rec_list + change
  outs_sum change rec_list opret free =
      let pays = pay_outputs o q (λ n. n) rec_list in
      let paid = sum_by-append (λ (t : TxOut). t.amount) pays (opret ∷ []) in
      let sum = pay_outputs-sum rec_list in
      elim (Bool-cases (leb q.dust change)) [
        | inl given ↦ rw given (omega (arith, paid, sum, free))
        | inr kept ↦ rw kept (omega (arith, paid, sum, free))
      ]

  pub select-IsBalanced :
      (utxos : List PoolUtxo) (rec_list : Recipients) (tx : Tx) (spent : List PoolUtxo)
      → payout_select_utxos o q utxos rec_list ≡ some (tx, spent)
      → IsBalanced tx spent
  unfolding payout_select_utxos
  select-IsBalanced utxos rec_list tx spent h =
      let ((sel, change), a, h1) = >>=-some (select_utxos o q rec_list utxos []) _ (tx, spent) h in
      let (opret, b, h2) = >>=-some (build_opret o q rec_list) _ (tx, spent) h1 in
      let outs =
        (if leb q.dust change then change_output o q change ∷ [] else [])
        ++ (pay_outputs o q (λ n. n) rec_list ++ opret ∷ []) in
      let (with_change, fee, rest, e, le, fits, split) =
        select_lem rec_list utxos [] sel change a in
      let sum = outs_sum change rec_list opret (opret-free rec_list opret b) in
      let whole =
        spend_pool-IsBalanced sel outs with_change rec_list fee e (omega (arith, le, sum)) in
      let same : sel ≡ spent = ground arith in
      let same_tx : spend_pool o q sel outs ≡ tx = ground arith in
      subst (λ (p : Tx × List PoolUtxo). IsBalanced p.0 p.1) (λ i. (same_tx i, same i)) whole
