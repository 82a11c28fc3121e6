-- ===== src/Graffiti/Payouts/Shape.antt =====
-- What a payout transaction looks like: its inputs, its outputs, its change and its estimated fee.
use graffiti_protocol.Base.{
  ℕ, ap, ◌+◌, ◌≤◌, ◌<◌, ◌*◌, max, ◌≡◌, ◌⊎◌, refl, arith, Bool, true, false, List, [], ◌∷◌, ◌++◌,
  some, leb, >>=-some, if◌then◌else◌, sum_by,
}
use graffiti_protocol.Ledger.{Tx, TxIn, TxOut, output_sum}
use graffiti_protocol.Graffiti.Payer.{
  PoolUtxo, Recipients, PayerTools, Request, available, build_inputs, build_opret, pay_outputs,
  change_output, estimate_fee,
}
use graffiti_protocol.Graffiti.Balanced.{Fits}

module _ (o : PayerTools) (q : Request) where
  -- Of every kind of outputs there are as many in the pool as are spent and left together, counted in
  -- any way: none is spent that is not in the pool, or more often than it is there.
  abbrev IsDrawnFrom : List PoolUtxo → List PoolUtxo → Type 0
  IsDrawnFrom pool spent =
      (rest : List PoolUtxo) × ((f : PoolUtxo → ℕ) → sum_by f spent + sum_by f rest ≡ sum_by f pool)

  -- An input for each output, with the two parts of the pool's witness.
  abbrev pub spending : List PoolUtxo → List TxIn
  spending [] = []
  spending (u ∷ us) =
      record {
        prev_txid = u.txid;
        vout = u.vout;
        script_sig = [];
        witness = o.art_digest q.art_id ∷ o.redeem_script q.art_id ∷ [];
      }
      ∷ spending us

  abbrev pub paying : (ℕ → ℕ) → Recipients → List TxOut → List TxOut
  paying f [] last = last
  paying f ((addr, n) ∷ recs) last =
      record { amount = f n; script_pubkey = o.p2wpkh_script addr } ∷ paying f recs last

  abbrev IsChange : Bool → List TxOut → Type 0
  IsChange true change =
      (n : ℕ) × (q.dust ≤ n)
      × (change ≡ record { amount = n; script_pubkey = o.pool_spk q.art_id } ∷ [])
  IsChange false change = change ≡ []

  abbrev trial_change : Bool → List TxOut
  trial_change true = record { amount = max 1 q.dust; script_pubkey = o.pool_spk q.art_id } ∷ []
  trial_change false = []

  -- The fee for the size of a transaction with these inputs, an output of 1 for each recipient and the
  -- metadata, and one more to the pool where there is change.
  abbrev IsEstimated : List PoolUtxo → Bool → Recipients → ℕ → Type 0
  IsEstimated spent b recs fee =
      (opret : TxOut) × (build_opret o q recs ≡ some opret)
      × (fee
          ≡ q.rate
            * max 1
                (o.vsize (spending spent) (trial_change b ++ paying (λ n. 1) recs (opret ∷ []))))

  -- The recipients are paid what they ask for, and the fee is estimated for that; or the only one, who
  -- asks for all there is, is paid what a fee leaves that is estimated for some amount to it.
  abbrev IsPaidAs :
      List PoolUtxo → List PoolUtxo → Recipients → Recipients → Recipients → Bool → ℕ → ℕ → Type 0
  IsPaidAs pool spent recs paid estimated b fee tx_fee =
      (paid ≡ recs) × (estimated ≡ recs) × (fee ≤ tx_fee)
      ⊎ ((addr : ℕ) × (n : ℕ) × (m : ℕ) × (recs ≡ (addr, available pool) ∷ [])
          × (paid ≡ (addr, n) ∷ [])
          × (estimated ≡ (addr, m) ∷ [])
          × (available spent ≡ available pool)
          × (b ≡ false)
          × (fee ≡ tx_fee))

  abbrev pub IsPayout : List PoolUtxo → Recipients → Tx → List PoolUtxo → Type 0
  IsPayout pool recs tx spent =
      IsDrawnFrom pool spent
      × (tx.inputs ≡ spending spent)
      × (output_sum tx.outputs + tx.fee ≡ available spent)
      × ((b : Bool) × (change : List TxOut) × (paid : Recipients) × (estimated : Recipients)
          × (opret : TxOut) × (fee : ℕ) × (tx.outputs ≡ change ++ paying (λ n. n) paid (opret ∷ []))
          × IsChange b change
          × (build_opret o q paid ≡ some opret)
          × IsEstimated spent b estimated fee
          × IsPaidAs pool spent recs paid estimated b fee tx.fee)

  pub build_inputs-spending : (us : List PoolUtxo) → build_inputs o q us ≡ spending us
  unfolding build_inputs
  build_inputs-spending [] = refl
  build_inputs-spending (u ∷ us) = rw (← build_inputs-spending us) refl

  pub pay_outputs-paying :
      (f : ℕ → ℕ) (recs : Recipients) (last : List TxOut)
      → pay_outputs o q f recs ++ last ≡ paying f recs last
  pay_outputs-paying f [] last = refl
  pay_outputs-paying f ((addr, n) ∷ recs) last =
      ap (λ l. record { amount = f n; script_pubkey = o.p2wpkh_script addr } ∷ l)
        (pay_outputs-paying f recs last)

  estimate_lem :
      (spent : List PoolUtxo) (change : List TxOut) (recs : Recipients) (opret : TxOut)
      → q.rate
          * max 1 (
              o.vsize
                (build_inputs o q spent)
                (change ++ (pay_outputs o q (λ n. 1) recs ++ opret ∷ [])))
        ≡ q.rate * max 1 (o.vsize (spending spent) (change ++ paying (λ n. 1) recs (opret ∷ [])))
  estimate_lem spent change recs opret =
      rw (build_inputs-spending spent, pay_outputs-paying (λ n. 1) recs (opret ∷ [])) refl

  pub estimate_fee-IsEstimated :
      (spent : List PoolUtxo) (b : Bool) (recs : Recipients) (fee : ℕ)
      → estimate_fee o q spent b recs ≡ some fee
      → IsEstimated spent b recs fee
  unfolding estimate_fee
  estimate_fee-IsEstimated spent true recs fee h =
      let (opret, built, e) = >>=-some (build_opret o q recs) _ fee h in
      (opret, built, ground (arith, estimate_lem spent (trial_change true) recs opret))
  estimate_fee-IsEstimated spent false recs fee h =
      let (opret, built, e) = >>=-some (build_opret o q recs) _ fee h in
      (opret, built, ground (arith, estimate_lem spent [] recs opret))

  pub change_lem :
      (b : Bool) (change : ℕ)
      → 0 < q.dust
      → Fits o q b change
      → IsChange b (if leb q.dust change then change_output o q change ∷ [] else [])
  change_lem true change some_dust fits =
      let e : leb q.dust change ≡ true = ground arith in rw e (change, fits, refl)
  change_lem false change some_dust fits =
      let e : leb q.dust change ≡ false = ground arith in rw e refl
