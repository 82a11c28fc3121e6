-- ===== src/Validation/Payable.antt =====
-- What the checks of payouts let through.
use mathlib.Core.Path.{subst}
use graffiti_protocol.Base.{
  ℕ, ◌+◌, ◌≤◌, ◌<◌, ◌≡◌, ◌≢◌, ◌⊎◌, refl, arith, inl, inr, false, not, List, [], ◌∷◌, ◌++◌, none,
  some, eqb, leb_ℤ, pos_part, if◌then◌else◌, Bool-cases, Option-cases, sum_by, ℤ, pos, negsuc, Dict,
  nat_key, pair_key, Option, insert, lookup-insert, ltb,
}
use graffiti_protocol.Ledger.{Tx, TxOut}
use graffiti_protocol.Script.{Bytes}
use graffiti_protocol.Registry.{Post, Registry, get_post}
use graffiti_protocol.Graffiti.{Text, Meta, plain, get, k_epoch, k_art_id, int_or}
use graffiti_protocol.Validation.Posts.{text_field, spk_to_address}
use graffiti_protocol.Validation.Payouts.{
  amount_of, read_int, is_rewind, validate_payout_proof, valid_storer, require_recipients,
  check_recipients, check_payout_of, validate_single_payout, paymap_of, check_outputs_payouts,
  validate_graffiti_payouts,
}
use graffiti_protocol.Validation.Reason.{require, passed, Checked-cases, ◌>>◌}
use graffiti_protocol.Validation.Accepted.{bind-passed, check-passed}

-- What the outputs pay to an address, each script's address being stripped and lowered.
abbrev pub paid_by : Text → (Bytes → ℕ) → List TxOut → ℕ → ℕ
paid_by t bech32 outputs addr =
    sum_by
      (λ (out : TxOut). elim (spk_to_address bech32 out.script_pubkey) [
        | none ↦ 0
        | some name ↦ if eqb (t.clean name) addr then out.amount else 0
      ])
      outputs

amount_of-paymap_of :
    (t : Text) (bech32 : Bytes → ℕ) (outputs : List TxOut) (paymap : Dict ℕ ℕ) (k : ℕ)
    → amount_of k (paymap_of t bech32 outputs paymap)
      ≡ amount_of k paymap + paid_by t bech32 outputs k
unfolding paymap_of
amount_of-paymap_of t bech32 [] paymap k = omega arith
amount_of-paymap_of t bech32 (out ∷ outputs) paymap k =
    elim (Option-cases (spk_to_address bech32 out.script_pubkey)) [
      | inl other ↦ ground (arith, amount_of-paymap_of t bech32 outputs paymap k)
      | inr (name, there) ↦
          let key = t.clean name in
          let more = insert key (amount_of key paymap + out.amount) paymap in
          elim (Bool-cases (ltb 0 out.amount)) [
            | inl some_paid ↦ ground (
              arith,
              amount_of-paymap_of t bech32 outputs more k,
              lookup-insert key k (amount_of key paymap + out.amount) paymap,
            )
            | inr nothing ↦ ground (arith, amount_of-paymap_of t bech32 outputs paymap k)
          ]
    ]

pub paymap-paid_by :
    (t : Text) (bech32 : Bytes → ℕ) (outputs : List TxOut)
    → (λ k. amount_of k (paymap_of t bech32 outputs [])) ≡ paid_by t bech32 outputs
paymap-paid_by t bech32 outputs =
    let same : (k : ℕ) → amount_of k (paymap_of t bech32 outputs []) ≡ paid_by t bech32 outputs k =
      λ k. omega (arith, amount_of-paymap_of t bech32 outputs [] k) in
    λ i k. same k i

-- The epoch is negative, or later than the last one paid, if there is one.
abbrev pub IsUnpaid : ℤ → Option ℕ → Type 0
IsUnpaid epoch none = Unit {0}
IsUnpaid (negsuc n) (some last_epoch) = Unit {0}
IsUnpaid (pos n) (some last_epoch) = last_epoch < n

pub is_rewind-IsUnpaid :
    (t : Text) (epoch : ℤ) (last : Option ℕ) → is_rewind t epoch last ≡ false → IsUnpaid epoch last
unfolding is_rewind
is_rewind-IsUnpaid t epoch none h = tt
is_rewind-IsUnpaid t (negsuc n) (some last_epoch) h = tt
is_rewind-IsUnpaid t (pos n) (some last_epoch) h = ground arith

-- Each recipient has an address and an amount, is the storer if there is one, and is paid the amount;
-- amounts that one address asks for more than once are not added up.
abbrev pub ArePaid : Text → ℕ → (ℕ → ℕ) → List (ℕ × ℕ) → Type 0
ArePaid t storer paid [] = Unit {0}
ArePaid t storer paid ((name, amt_req) ∷ recs) =
    (t.clean name ≢ 0)
    × (0 < amt_req)
    × ((storer ≡ 0) ⊎ (t.clean name ≡ storer))
    × (amt_req ≤ paid (t.clean name))
    × ArePaid t storer paid recs

recipient_lem :
    (t : Text) (storer : ℕ) (paymap : Dict ℕ ℕ) (name amt_req : ℕ) (recs : List (ℕ × ℕ))
    (total_req total : ℕ)
    → check_recipients t storer paymap ((name, amt_req) ∷ recs) total_req ≡ passed total
    → (t.clean name ≢ 0)
      × (0 < amt_req)
      × ((storer ≡ 0) ⊎ (t.clean name ≡ storer))
      × (amt_req ≤ amount_of (t.clean name) paymap)
      × (check_recipients t storer paymap recs (total_req + amt_req) ≡ passed total)
unfolding check_recipients
recipient_lem t storer paymap name amt_req recs total_req total h = (
  λ q. ground arith,
  ground arith,
  elim (Bool-cases (eqb storer 0)) [ inl z ↦ inl (ground arith) | inr z ↦ inr (ground arith) ],
  ground arith,
  ground arith,
)

check_recipients-ArePaid :
    (t : Text) (storer : ℕ) (paymap : Dict ℕ ℕ) (recs : List (ℕ × ℕ)) (total_req total : ℕ)
    → check_recipients t storer paymap recs total_req ≡ passed total
    → ArePaid t storer (λ k. amount_of k paymap) recs × (total ≡ total_req + sum_by (λ r. r.1) recs)
check_recipients-ArePaid t storer paymap [] total_req total h =
    (tt, unfold check_recipients in ground arith)
check_recipients-ArePaid t storer paymap ((name, amt_req) ∷ recs) total_req total h =
    let (a, b, c, d, more) = recipient_lem t storer paymap name amt_req recs total_req total h in
    let (rest, sum) =
      check_recipients-ArePaid t storer paymap recs (total_req + amt_req) total more in
    ((a, b, c, d, rest), omega (arith, sum))

-- A payout of an epoch, which is none below 0, has the proof that the check asks for.
abbrev pub IsProved : Text → Meta → ℤ → ℕ → Registry → Type 0
IsProved t meta (pos epoch) art_id reg = validate_payout_proof t meta epoch art_id reg ≡ passed tt
IsProved t meta (negsuc n) art_id reg = Unit {0}

-- What an accepted payout asks for, `paid` being what its own transaction pays to an address.
abbrev pub IsCoveredBy : Text → Meta → (ℕ → ℕ) → Registry → ℕ → Post → ℤ → Type 0
IsCoveredBy t meta paid reg art_id p epoch =
    (int_or t (negsuc 0) (get (plain k_epoch) meta) ≡ some epoch)
    × IsUnpaid epoch p.stats.last_paid_epoch
    × IsProved t meta epoch art_id reg
    × (meta.recipients ≢ [])
    × ArePaid t (valid_storer t art_id epoch meta reg) paid meta.recipients
    × (sum_by (λ r. r.1) meta.recipients ≤ p.stats.pool_balance)

read_int_lem :
    (t : Text) (meta : Meta) (epoch : ℤ)
    → read_int t (negsuc 0) (get (plain k_epoch) meta) ≡ passed epoch
    → int_or t (negsuc 0) (get (plain k_epoch) meta) ≡ some epoch
unfolding read_int
read_int_lem t meta epoch h = ground arith

some_recipients : (recs : List (ℕ × ℕ)) → require_recipients recs ≡ none → recs ≢ []
unfolding require_recipients
some_recipients [] h = absurd (ground arith)
some_recipients (r ∷ recs) h = λ q. ground arith

proved_lem :
    (t : Text) (meta : Meta) (epoch : ℤ) (art_id : ℕ) (reg : Registry)
    → (if leb_ℤ (pos 0) epoch
        then validate_payout_proof t meta (pos_part epoch) art_id reg
        else passed tt)
      ≡ passed tt
    → IsProved t meta epoch art_id reg
proved_lem t meta (pos n) art_id reg h = ground arith
proved_lem t meta (negsuc n) art_id reg h = tt

payout_lem :
    (t : Text) (meta : Meta) (paymap : Dict ℕ ℕ) (reg : Registry) (art_id : ℕ) (p : Post)
    → check_payout_of t meta paymap reg art_id p ≡ passed tt
    → (epoch : ℤ) × IsCoveredBy t meta (λ k. amount_of k paymap) reg art_id p epoch
unfolding check_payout_of
payout_lem t meta paymap reg art_id p h =
    let (epoch, read, h1) = bind-passed (read_int t (negsuc 0) (get (plain k_epoch) meta)) _ tt h in
    let (a, h2) =
      check-passed (require (not (is_rewind t epoch p.stats.last_paid_epoch)) _) _ tt h1 in
    let (u, b, h3) =
      bind-passed
        (if leb_ℤ (pos 0) epoch
          then validate_payout_proof t meta (pos_part epoch) art_id reg
          else passed tt)
        _ tt h2 in
    let (c, h4) = check-passed (require_recipients meta.recipients) _ tt h3 in
    let (total, d, h5) =
      bind-passed
        (check_recipients t (valid_storer t art_id epoch meta reg) paymap meta.recipients 0) _ tt
        h4 in
    let (paid, sum) =
      check_recipients-ArePaid t (valid_storer t art_id epoch meta reg) paymap meta.recipients 0
        total d in
    (
      epoch,
      (
        read_int_lem t meta epoch read,
        is_rewind-IsUnpaid t epoch p.stats.last_paid_epoch (ground arith),
        proved_lem t meta epoch art_id reg b,
        some_recipients meta.recipients c,
        paid,
        ground (arith, sum),
      ),
    )

-- An accepted payout names a post of the registry, and an epoch that is negative or later than the last
-- one paid for it, with the proof that the check asks for; each of its recipients has an address and an
-- amount, is the storer of the proof where a storer is named, and is paid at least the amount by the
-- outputs of the transaction (amounts that one address asks for more than once are not added up); and
-- the amounts that are asked for, not what is paid, are together no more than the pool of the post.
pub validate_single_payout-IsCoveredBy :
    (t : Text) (bech32 : Bytes → ℕ) (meta : Meta) (outputs : List TxOut) (reg : Registry)
    → validate_single_payout t meta (paymap_of t bech32 outputs []) reg ≡ passed tt
    → (p : Post) × (epoch : ℤ) × (get_post (text_field t k_art_id meta) reg ≡ some p)
      × IsCoveredBy t meta (paid_by t bech32 outputs) reg (text_field t k_art_id meta) p epoch
unfolding validate_single_payout
validate_single_payout-IsCoveredBy t bech32 meta outputs reg h =
    let art_id = text_field t k_art_id meta in
    elim (Bool-cases (eqb (text_field t k_art_id meta) 0)) [
      | inl unnamed ↦ absurd (ground arith)
      | inr named ↦ elim (Option-cases (get_post (text_field t k_art_id meta) reg)) [
        | inl unknown ↦ absurd (ground arith)
        | inr (p, known) ↦
            let (epoch, covered) =
              payout_lem t meta (paymap_of t bech32 outputs []) reg art_id p (ground arith) in
            (
              p,
              epoch,
              known,
              subst (λ paid. IsCoveredBy t meta paid reg art_id p epoch)
                  (paymap-paid_by t bech32 outputs) covered,
            )
      ]
    ]

-- Payouts are judged one transaction at a time against one registry: a list of transactions passes
-- exactly when its parts do, so what one of them takes from a pool, and the epoch it pays, does not
-- count for the next.
validate_graffiti_payouts-append :
    (t : Text) (bech32 : Bytes → ℕ) (reg : Registry) (txs more : List Tx)
    → validate_graffiti_payouts t bech32 reg (txs ++ more)
      ≡ (validate_graffiti_payouts t bech32 reg txs >> validate_graffiti_payouts t bech32 reg more)
unfolding validate_graffiti_payouts
validate_graffiti_payouts-append t bech32 reg [] more = refl
validate_graffiti_payouts-append t bech32 reg (tx ∷ txs) more =
    elim (Checked-cases
      (check_outputs_payouts t (paymap_of t bech32 tx.outputs []) reg tx.outputs)) [
        | inl (r, refusal) ↦ rw refusal refl
        | inr (u, fine) ↦ rw fine (validate_graffiti_payouts-append t bech32 reg txs more)
      ]
