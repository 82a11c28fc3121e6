-- ===== src/Graffiti/Payouts.antt =====
-- The payouts that `build_payout_tx` makes: what they spend, whom they pay, and their fee.
pub mod Shape
use mathlib.Core.Path.{subst}
use graffiti_protocol.Base.{
  ℕ, zero, suc, ◌∙◌, ap, sym, ◌+◌, ◌-◌, ◌<◌, ◌≡◌, ◌⊎◌, refl, arith, inl, inr, false, List, [], ◌∷◌,
  ◌++◌, some, length, eqb, ltb, leb, guard, >>=-some, if◌then◌else◌, Bool-cases, sum_by-append,
  sort_by, sum_by, sum_by-sort_by,
}
use graffiti_protocol.Ledger.{Tx}
use graffiti_protocol.Graffiti.Payer.{
  PoolUtxo, Recipients, PayerTools, Request, needed, available, build_opret, pay_outputs,
  change_output, estimate_fee, spend_pool, select_utxos, payout_select_utxos, claim_rounds,
  payout_max_claim, pay_from, validate_and_format_recipients, build_payout_tx,
}
use graffiti_protocol.Graffiti.Balanced.{select_lem, outs_sum, opret-free}
use graffiti_protocol.Graffiti.Payouts.Shape.{
  IsPayout, build_inputs-spending, pay_outputs-paying, estimate_fee-IsEstimated, change_lem,
}

module _ (o : PayerTools) (q : Request) where
  select-IsPayout :
      (pool utxos : List PoolUtxo) (rec_list : Recipients) (tx : Tx) (spent : List PoolUtxo)
      → 0 < q.dust
      → ((f : PoolUtxo → ℕ) → sum_by f utxos ≡ sum_by f pool)
      → payout_select_utxos o q utxos rec_list ≡ some (tx, spent)
      → IsPayout o q pool rec_list tx spent
  unfolding payout_select_utxos spend_pool
  select-IsPayout pool utxos rec_list tx spent some_dust sorted h =
      let ((sel, change), a, h1) = >>=-some (select_utxos o q rec_list utxos []) _ (tx, spent) h in
      let (opret, built, h2) = >>=-some (build_opret o q rec_list) _ (tx, spent) h1 in
      let with_change = if leb q.dust change then change_output o q change ∷ [] else [] in
      let outs = with_change ++ (pay_outputs o q (λ n. n) rec_list ++ opret ∷ []) in
      let (b, fee, rest, e, le, fits, split) = select_lem o q rec_list utxos [] sel change a in
      let sum = outs_sum o q change rec_list opret (opret-free o q rec_list opret built) in
      let same : sel ≡ spent = ground arith in
      let same_tx : spend_pool o q sel outs ≡ tx = ground arith in
      subst (λ (p : Tx × List PoolUtxo). IsPayout o q pool rec_list p.0 p.1)
        (λ i. (same_tx i, same i))
        (
          (rest, λ f. sym (sum_by-append f sel rest) ∙ ap (sum_by f) (sym split) ∙ sorted f),
          build_inputs-spending o q sel,
          omega (arith, le, sum),
          (
            b,
            with_change,
            rec_list,
            rec_list,
            opret,
            fee,
            ap (λ l. with_change ++ l) (pay_outputs-paying o q (λ n. n) rec_list (opret ∷ [])),
            change_lem o q b change some_dust fits,
            built,
            estimate_fee-IsEstimated o q sel b rec_list fee e,
            inl (refl, refl, omega (arith, le, sum)),
          ),
        )

  -- A round of the claim of all there is: the amount stands, or goes into the next round.
  claim_step :
      (rounds : ℕ) (utxos : List PoolUtxo) (addr amount paid : ℕ)
      → claim_rounds o q (suc rounds) utxos addr amount ≡ some paid
      → (fee : ℕ) × (estimate_fee o q utxos false ((addr, amount) ∷ []) ≡ some fee)
        × (fee < available utxos)
        × ((paid ≡ available utxos - fee)
            ⊎ (claim_rounds o q rounds utxos addr (available utxos - fee) ≡ some paid))
  unfolding claim_rounds
  claim_step rounds utxos addr amount paid h =
      let (fee, e, h1) = >>=-some (estimate_fee o q utxos false ((addr, amount) ∷ [])) _ paid h in
      let (u, less, h2) = >>=-some (guard (ltb fee (available utxos))) _ paid h1 in
      let left : ℕ = available utxos - fee in
      elim (Bool-cases (eqb left amount)) [
        | inl same ↦ (fee, e, ground arith, inl (ground arith))
        | inr other ↦ (fee, e, ground arith, inr (ground arith))
      ]

  claim_lem :
      (rounds : ℕ) (utxos : List PoolUtxo) (addr amount paid : ℕ)
      → claim_rounds o q (suc rounds) utxos addr amount ≡ some paid
      → (m : ℕ) × (fee : ℕ) × (estimate_fee o q utxos false ((addr, m) ∷ []) ≡ some fee)
        × (paid + fee ≡ available utxos)
  claim_lem zero utxos addr amount paid h =
      let (fee, e, less, end) = claim_step 0 utxos addr amount paid h in
      let taken : paid ≡ available utxos - fee = elim end [
        | inl stands ↦ stands
        | inr last ↦ unfold claim_rounds in ground arith
      ] in
      (amount, fee, e, omega (arith, taken, less))
  claim_lem (suc rounds) utxos addr amount paid h =
      let (fee, e, less, end) = claim_step (suc rounds) utxos addr amount paid h in
      elim end [
        | inl stands ↦ (amount, fee, e, omega (arith, stands, less))
        | inr again ↦ claim_lem rounds utxos addr (available utxos - fee) paid again
      ]

  claim-IsPayout :
      (pool utxos : List PoolUtxo) (addr amount : ℕ) (tx : Tx) (spent : List PoolUtxo)
      → ((f : PoolUtxo → ℕ) → sum_by f utxos ≡ sum_by f pool)
      → amount ≡ available pool
      → payout_max_claim o q utxos addr amount ≡ some (tx, spent)
      → IsPayout o q pool ((addr, amount) ∷ []) tx spent
  unfolding payout_max_claim spend_pool
  claim-IsPayout pool utxos addr amount tx spent sorted whole h =
      let (paid, a, h1) = >>=-some (claim_rounds o q 2 utxos addr amount) _ (tx, spent) h in
      let (opret, built, h2) = >>=-some (build_opret o q ((addr, paid) ∷ [])) _ (tx, spent) h1 in
      let outs = pay_outputs o q (λ n. n) ((addr, paid) ∷ []) ++ opret ∷ [] in
      let (m, fee, e, sum) = claim_lem 1 utxos addr amount paid a in
      let free = opret-free o q ((addr, paid) ∷ []) opret built in
      let same : utxos ≡ spent = ground arith in
      let same_tx : spend_pool o q utxos outs ≡ tx = ground arith in
      subst (λ (p : Tx × List PoolUtxo). IsPayout o q pool ((addr, amount) ∷ []) p.0 p.1)
        (λ i. (same_tx i, same i))
        (
          ([], λ f. omega (arith, sorted f)),
          build_inputs-spending o q utxos,
          omega (arith, sum, free),
          (
            false,
            [],
            (addr, paid) ∷ [],
            (addr, m) ∷ [],
            opret,
            fee,
            refl,
            refl,
            built,
            estimate_fee-IsEstimated o q utxos false ((addr, m) ∷ []) fee e,
            inr (
              addr,
              paid,
              m,
              ap (λ n. (addr, n) ∷ []) whole,
              refl,
              refl,
              sorted (λ u. u.amount),
              refl,
              omega (arith, sum, free),
            ),
          ),
        )

  pay_from-IsPayout :
      (pool utxos : List PoolUtxo) (rec_list : Recipients) (tx : Tx) (spent : List PoolUtxo)
      → 0 < q.dust
      → ((f : PoolUtxo → ℕ) → sum_by f utxos ≡ sum_by f pool)
      → pay_from o q utxos rec_list ≡ some (tx, spent)
      → IsPayout o q pool rec_list tx spent
  unfolding pay_from
  pay_from-IsPayout pool utxos [] tx spent d s h = select-IsPayout pool utxos [] tx spent d s h
  pay_from-IsPayout pool utxos ((addr, amount) ∷ []) tx spent d s h =
      elim (Bool-cases (eqb amount (available utxos))) [
        | inl whole ↦
            let all = s (λ u. u.amount) in
            claim-IsPayout pool utxos addr amount tx spent s (ground (arith, all)) (ground arith)
        | inr part ↦ select-IsPayout pool utxos ((addr, amount) ∷ []) tx spent d s (ground arith)
      ]
  pay_from-IsPayout pool utxos (r ∷ r' ∷ rs) tx spent d s h =
      select-IsPayout pool utxos (r ∷ r' ∷ rs) tx spent d s h

  -- A payout that is built, with a dust threshold above 0, spends some outputs of the pool, none more
  -- often than it is there, each with the witness of the pool; its outputs and its fee add up to what
  -- these are worth; and its outputs are the change to the pool, if there is any, which is no dust, one
  -- output for each recipient of the formatted list, and the metadata of these payments. Each is paid
  -- what it asks for, and the fee is no less than the estimate for these inputs and recipients, with
  -- change where there is change; but where the only recipient asks for all that the pool has, all of
  -- it may be spent without change: then the fee is the estimate for these inputs and some amount to
  -- it, and it is paid the rest.
  pub build_payout_tx-IsPayout :
      (pool : List PoolUtxo) (recipients : Recipients) (tx : Tx) (spent : List PoolUtxo)
      → 0 < q.dust
      → build_payout_tx o q pool recipients ≡ some (tx, spent)
      → (rec_list : Recipients) × (validate_and_format_recipients o.texts recipients
          ≡ some rec_list)
        × IsPayout o q pool rec_list tx spent
  unfolding build_payout_tx
  build_payout_tx-IsPayout pool recipients tx spent some_dust h =
      let less = λ (x y : PoolUtxo). ltb y.amount x.amount in
      let (rec_list, a, h1) =
        >>=-some (validate_and_format_recipients o.texts recipients) _ (tx, spent) h in
      let (u, b, h2) = >>=-some (guard (ltb 0 (length pool))) _ (tx, spent) h1 in
      let (v, c, h3) = >>=-some (guard (leb (needed rec_list) (available pool))) _ (tx, spent) h2 in
      (
        rec_list,
        a,
        pay_from-IsPayout pool (sort_by less pool) rec_list tx spent some_dust
            (λ f. sum_by-sort_by less f pool) h3,
      )
