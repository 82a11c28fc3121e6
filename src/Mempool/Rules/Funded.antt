-- ===== src/Mempool/Rules/Funded.antt =====
-- What the mempool's check of a payout lets through.
use mathlib.Core.Path.{subst}
use graffiti_protocol.Base.{
  ℕ, ◌+◌, ◌-◌, ◌≤◌, ◌≡◌, ◌∙◌, ap, refl, arith, inl, inr, not, true, List, [], ◌∷◌, Option, none,
  some, drop, eqb, ltb, leb, ◌||◌, Bool-cases, Option-cases, sum_by, ℤ, negsuc, Dict, leb→le,
}
use graffiti_protocol.Ledger.{Tx, TxIn, output_sum}
use graffiti_protocol.Script.{Bytes, is_p2wsh}
use graffiti_protocol.Registry.{Post, Registry, get_post}
use graffiti_protocol.Utxo.{Entry, Utxos}
use graffiti_protocol.Graffiti.{Text, Meta, plain, get, k_epoch, k_art_id, int_or}
use graffiti_protocol.Validation.{amount_of, paymap_of, valid_storer, is_rewind}
use graffiti_protocol.Validation.Payable.{
  paid_by, paymap-paid_by, IsUnpaid, is_rewind-IsUnpaid, ArePaid,
}
use graffiti_protocol.Mempool.Rules.Outcome.{
  accepted, payout_epoch_rewind, ◌>>◌, ensure, or_raise, >>=-accepted, ensure-accepted,
}
use graffiti_protocol.Mempool.Rules.Graffiti.{clean_field}
use graffiti_protocol.Mempool.Rules.Payout.{
  bytes_eqb, lookup_utxo_entry, check_pool_entry, check_pool_inputs, validate_payout_inputs,
  ensure_recipients, check_paid, ensure_proof, validate_payout_art_and_epoch,
  validate_payout_recipients_and_balance, validate_payout_tx,
}

-- What an input is worth; 0 if there is no such output.
abbrev input_amount : Utxos → Utxos → TxIn → ℕ
input_amount snapshot store txin = elim (lookup_utxo_entry snapshot store txin) [
  | none ↦ 0
  | some entry ↦ entry.tx_out.amount
]

-- Each input spends an output to the script with the hash.
abbrev SpendsPool : Bytes → Utxos → Utxos → List TxIn → Type 0
SpendsPool hash snapshot store [] = Unit {0}
SpendsPool hash snapshot store (txin ∷ inputs) =
    ((entry : Entry) × (lookup_utxo_entry snapshot store txin ≡ some entry)
      × (is_p2wsh entry.tx_out.script_pubkey ≡ true)
      × (drop 2 entry.tx_out.script_pubkey ≡ hash))
    × SpendsPool hash snapshot store inputs

bytes_eqb→eq : (s r : Bytes) → bytes_eqb s r ≡ true → s ≡ r
unfolding bytes_eqb
bytes_eqb→eq [] [] h = refl
bytes_eqb→eq (b ∷ s) (c ∷ r) h = ground (arith, bytes_eqb→eq s r)
bytes_eqb→eq (b ∷ s) [] h = cc
bytes_eqb→eq [] (c ∷ r) h = cc

check_pool_entry-accepted :
    (hash : Bytes) (entry : Entry)
    → check_pool_entry hash entry ≡ accepted tt
    → (is_p2wsh entry.tx_out.script_pubkey ≡ true) × (drop 2 entry.tx_out.script_pubkey ≡ hash)
unfolding check_pool_entry
check_pool_entry-accepted hash entry h =
    let (a, h1) = ensure-accepted (is_p2wsh entry.tx_out.script_pubkey) _ _ tt h in
    elim (Bool-cases (bytes_eqb (drop 2 entry.tx_out.script_pubkey) hash)) [
      | inl same ↦ (a, bytes_eqb→eq (drop 2 entry.tx_out.script_pubkey) hash same)
      | inr other ↦ absurd (ground arith)
    ]

pub check_pool_inputs-SpendsPool :
    (hash : Bytes) (snapshot store : Utxos) (inputs : List TxIn) (total_in total : ℕ)
    → check_pool_inputs hash snapshot store inputs total_in ≡ accepted total
    → SpendsPool hash snapshot store inputs
      × (total ≡ total_in + sum_by (input_amount snapshot store) inputs)
unfolding check_pool_inputs
check_pool_inputs-SpendsPool hash snapshot store [] total_in total h = (tt, ground arith)
check_pool_inputs-SpendsPool hash snapshot store (txin ∷ inputs) total_in total h =
    elim (Option-cases (lookup_utxo_entry snapshot store txin)) [
      | inl missing ↦ absurd (ground arith)
      | inr (entry, found) ↦
          let (u, ours, h1) =
            >>=-accepted (check_pool_entry hash entry)
              (λ _. check_pool_inputs hash snapshot store inputs (total_in + entry.tx_out.amount))
              total (ground arith) in
          let (rest, sum) =
            check_pool_inputs-SpendsPool hash snapshot store inputs (total_in + entry.tx_out.amount)
              total h1 in
          let (script, program) = check_pool_entry-accepted hash entry ours in
          (((entry, found, script, program), rest), rw (found, input_amount) (omega (arith, sum)))
    ]

validate_payout_inputs-balanced :
    (hash : Bytes) (snapshot store : Utxos) (tx : Tx) (fee : ℕ)
    → validate_payout_inputs hash snapshot store tx ≡ accepted fee
    → SpendsPool hash snapshot store tx.inputs
      × (output_sum tx.outputs + fee ≡ sum_by (input_amount snapshot store) tx.inputs)
unfolding validate_payout_inputs
validate_payout_inputs-balanced hash snapshot store tx fee h =
    let (total, e, h1) = >>=-accepted (check_pool_inputs hash snapshot store tx.inputs 0) _ fee h in
    let (covered, h2) = ensure-accepted (leb (output_sum tx.outputs) total) _ _ fee h1 in
    let (spends, sum) = check_pool_inputs-SpendsPool hash snapshot store tx.inputs 0 total e in
    let paid : fee ≡ total - output_sum tx.outputs = ground arith in
    let le = leb→le (output_sum tx.outputs) total covered in (spends, omega (arith, paid, sum, le))

check_paid-ArePaid :
    (t : Text) (storer : ℕ) (paymap : Dict ℕ ℕ) (recs : List (ℕ × ℕ)) (total_req total : ℕ)
    → check_paid t storer paymap recs total_req ≡ accepted total
    → ArePaid t storer (λ k. amount_of k paymap) recs × (total ≡ total_req + sum_by (λ r. r.1) recs)
unfolding check_paid
check_paid-ArePaid t storer paymap [] total_req total h = (tt, ground arith)
check_paid-ArePaid t storer paymap ((name, amt_req) ∷ recs) total_req total h =
    let (a, h1) = ensure-accepted (not (eqb (t.clean name) 0 || eqb amt_req 0)) _ _ total h in
    let (b, h2) = ensure-accepted (eqb storer 0 || eqb (t.clean name) storer) _ _ total h1 in
    let (c, h3) =
      ensure-accepted (not (ltb (amount_of (t.clean name) paymap) amt_req)) _ _ total h2 in
    let (rest, sum) = check_paid-ArePaid t storer paymap recs (total_req + amt_req) total h3 in
    (
      (
        (λ q. ground arith),
        ground arith,
        elim (Bool-cases (eqb storer 0)) [
          | inl z ↦ inl (ground arith)
          | inr z ↦ inr (ground arith)
        ],
        ground arith,
        rest,
      ),
      omega (arith, sum),
    )

-- What an accepted payout takes and pays. An output that the inputs name twice is counted twice.
abbrev pub IsFunded :
    Text → (Bytes → ℕ) → (ℕ → Bytes) → Tx → Meta → Registry → Utxos → Utxos → ℕ → Type 0
IsFunded t bech32 pool_hash tx meta reg snapshot store fee =
    (p : Post) × (epoch : ℤ) × (get_post (clean_field t k_art_id meta) reg ≡ some p)
    × (int_or t (negsuc 0) (get (plain k_epoch) meta) ≡ some epoch)
    × IsUnpaid epoch p.stats.last_paid_epoch
    × SpendsPool (pool_hash (clean_field t k_art_id meta)) snapshot store tx.inputs
    × (output_sum tx.outputs + fee ≡ sum_by (input_amount snapshot store) tx.inputs)
    × ArePaid t (valid_storer t (clean_field t k_art_id meta) epoch meta reg)
        (paid_by t bech32 tx.outputs) meta.recipients
    × (sum_by (λ r. r.1) meta.recipients ≤ p.stats.pool_balance)

or_raise-accepted : {A : Type 0} (o : Option A) (a : A) → or_raise o ≡ accepted a → o ≡ some a
or_raise-accepted none a h = cc
or_raise-accepted (some b) a h = cc

art_and_epoch_lem :
    (t : Text) (meta : Meta) (reg : Registry) (p : Post)
    → validate_payout_art_and_epoch t meta reg ≡ accepted p
    → (epoch : ℤ) × (get_post (clean_field t k_art_id meta) reg ≡ some p)
      × (int_or t (negsuc 0) (get (plain k_epoch) meta) ≡ some epoch)
      × IsUnpaid epoch p.stats.last_paid_epoch
unfolding validate_payout_art_and_epoch
art_and_epoch_lem t meta reg p h =
    let art_id = clean_field t k_art_id meta in
    elim (Option-cases (get_post (clean_field t k_art_id meta) reg)) [
      | inl unknown ↦ absurd (ground arith)
      | inr (q, known) ↦
          let (epoch, read, h1) =
            >>=-accepted (or_raise (int_or t (negsuc 0) (get (plain k_epoch) meta)))
              (λ (epoch : ℤ).
                ensure (not (is_rewind t epoch q.stats.last_paid_epoch)) payout_epoch_rewind
                >> ensure_proof t meta epoch art_id reg
                >> accepted q)
              p (ground arith) in
          let (later, h2) =
            ensure-accepted (not (is_rewind t epoch q.stats.last_paid_epoch)) payout_epoch_rewind
              (ensure_proof t meta epoch art_id reg >> accepted q) p (ground arith) in
          let (u, proved, h3) =
            >>=-accepted (ensure_proof t meta epoch art_id reg) (λ _. accepted q) p h2 in
          let same : q ≡ p = ground arith in
          (
            epoch,
            known ∙ ap some same,
            or_raise-accepted _ epoch read,
            rw (← same) (is_rewind-IsUnpaid t epoch q.stats.last_paid_epoch (ground arith)),
          )
    ]

recipients_lem :
    (t : Text) (bech32 : Bytes → ℕ) (tx : Tx) (meta : Meta) (p : Post) (reg : Registry) (epoch : ℤ)
    → int_or t (negsuc 0) (get (plain k_epoch) meta) ≡ some epoch
    → validate_payout_recipients_and_balance t bech32 tx meta p reg ≡ accepted tt
    → ArePaid t
        (valid_storer t (clean_field t k_art_id meta) epoch meta reg)
        (paid_by t bech32 tx.outputs)
        meta.recipients
      × (sum_by (λ r. r.1) meta.recipients ≤ p.stats.pool_balance)
unfolding validate_payout_recipients_and_balance
recipients_lem t bech32 tx meta p reg epoch read h =
    let (u, some_there, h1) = >>=-accepted (ensure_recipients meta.recipients) _ tt h in
    let (epoch', read', h2) =
      >>=-accepted (or_raise (int_or t (negsuc 0) (get (plain k_epoch) meta))) _ tt h1 in
    let (total, e, h3) =
      >>=-accepted
        (check_paid t (valid_storer t (clean_field t k_art_id meta) epoch' meta reg)
          (paymap_of t bech32 tx.outputs []) meta.recipients 0)
        _ tt h2 in
    let same : epoch' ≡ epoch =
      ground (arith, or_raise-accepted (int_or t (negsuc 0) (get (plain k_epoch) meta)) epoch') in
    let (paid, sum) =
      check_paid-ArePaid t (valid_storer t (clean_field t k_art_id meta) epoch' meta reg)
        (paymap_of t bech32 tx.outputs []) meta.recipients 0 total e in
    let within : total ≤ p.stats.pool_balance = ground arith in
    let storer = valid_storer t (clean_field t k_art_id meta) epoch meta reg in
    (
      subst (λ f. ArePaid t storer f meta.recipients) (paymap-paid_by t bech32 tx.outputs)
          (rw (← same) paid),
      omega (arith, sum, within),
    )

-- A payout that the mempool accepts, for a fee, names a post of the registry, and an epoch that is
-- negative or later than the last one paid; each of its inputs spends an output to the post's pool
-- script, and these outputs, one that is named twice being counted twice, are worth exactly the
-- payout's outputs and the fee; each recipient has an address and an amount, is the storer where one is
-- named, and is paid at least the amount by the outputs (amounts that one address asks for more than
-- once are not added up); and the amounts that are asked for, not what is paid, are together no more
-- than the pool has.
pub validate_payout_tx-IsFunded :
    (t : Text) (bech32 : Bytes → ℕ) (pool_hash : ℕ → Bytes) (tx : Tx) (meta : Meta) (reg : Registry)
    (snapshot store : Utxos) (fee : ℕ)
    → validate_payout_tx t bech32 pool_hash tx meta reg snapshot store ≡ accepted fee
    → IsFunded t bech32 pool_hash tx meta reg snapshot store fee
unfolding validate_payout_tx
validate_payout_tx-IsFunded t bech32 pool_hash tx meta reg snapshot store fee h =
    let (p, a, h1) = >>=-accepted (validate_payout_art_and_epoch t meta reg) _ fee h in
    let (u, b, h2) =
      >>=-accepted (validate_payout_recipients_and_balance t bech32 tx meta p reg) _ fee h1 in
    let (epoch, known, read, later) = art_and_epoch_lem t meta reg p a in
    let (paid, within) = recipients_lem t bech32 tx meta p reg epoch read b in
    let (spends, sum) =
      validate_payout_inputs-balanced (pool_hash (clean_field t k_art_id meta)) snapshot store tx
        fee h2 in
    (p, epoch, known, read, later, spends, sum, paid, within)
