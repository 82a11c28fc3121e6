-- ===== src/Events/Overpaid.antt =====
-- A payout that the check of a block accepts and the registry then leaves out.
use graffiti_protocol.Base.{
  ℕ, ◌<◌, ◌≤◌, ◌≢◌, ◌≡◌, ◌∷◌, ◌||◌, any, max, lookup, insert, lookup-insert, lookup-insert_self,
  nat_key, refl, sym, ◌∙◌, arith, true, false, List, [], Option, none, some, length, eqb, ltb,
  sum_by, ℤ, negsuc, Dict, inl, inr, Bool-cases, List-cases,
}
use graffiti_protocol.Ledger.{TxOut}
use graffiti_protocol.Script.{Bytes}
use graffiti_protocol.Registry.{Post, Registry, get_post}
use graffiti_protocol.Graffiti.{Text, Meta, plain, get, k_art_id, k_epoch, int_or}
use graffiti_protocol.Validation.{
  Addresses, text_field, validate_single_payout, valid_storer, paymap_of, is_rewind, passed,
}
use graffiti_protocol.Validation.Payable.{paid_by, ArePaid, IsCoveredBy}
use graffiti_protocol.Validation.Passing.{IsUnpaid-is_rewind, IsCoveredBy-passes}
use graffiti_protocol.Events.Record.{
  paid_clean, paid_map_of, is_paid_epoch, pay_out, payout_of, handle_payout,
}

-- What the handler takes the payout to have paid.
abbrev pub total_paid : Text → Addresses → List TxOut → Meta → ℕ
total_paid t a outputs meta =
    sum_by (λ (e : ℕ × ℕ). e.1) (paid_map_of t a.bech32 outputs meta.recipients [])

same_epoch_test :
    (t : Text) (epoch : ℤ) (last : Option ℕ) → is_rewind t epoch last ≡ is_paid_epoch epoch last
unfolding is_rewind is_paid_epoch
same_epoch_test t epoch none = refl
same_epoch_test t epoch (some n) = refl

pay_out-over :
    (t : Text) (now : ℕ) (a : Addresses) (get_balance : ℕ → ℕ) (meta : Meta) (outputs : List TxOut)
    (txid block_height art_id : ℕ) (p : Post) (epoch : ℤ) (s : Registry)
    → p.stats.pool_balance < total_paid t a outputs meta
    → pay_out t now a get_balance meta outputs txid block_height art_id p epoch s ≡ some s
unfolding pay_out
pay_out-over t now a get_balance meta outputs txid block_height art_id p epoch s over =
    elim (Bool-cases (eqb (length (paid_map_of t a.bech32 outputs meta.recipients [])) 0)) [
      | inl nothing ↦ rw nothing refl
      | inr something ↦
          let e : ltb p.stats.pool_balance (total_paid t a outputs meta) ≡ true = ground arith in
          rw (something, e) refl
    ]

payout_of-over :
    (t : Text) (now : ℕ) (a : Addresses) (get_balance : ℕ → ℕ) (meta : Meta) (outputs : List TxOut)
    (txid block_height art_id : ℕ) (p : Post) (epoch : ℤ) (s : Registry)
    → p.stats.pool_balance < total_paid t a outputs meta
    → int_or t (negsuc 0) (get (plain k_epoch) meta) ≡ some epoch
    → is_paid_epoch epoch p.stats.last_paid_epoch ≡ false
    → payout_of t now a get_balance meta outputs txid block_height art_id p s ≡ some s
unfolding payout_of
payout_of-over t now a get_balance meta outputs txid block_height art_id p epoch s over read newer =
    rw (read, newer)
      (pay_out-over t now a get_balance meta outputs txid block_height art_id p epoch s over)

lookup-le-sum : (k v : ℕ) (d : Dict ℕ ℕ) → lookup k d ≡ some v → v ≤ sum_by (λ (e : ℕ × ℕ). e.1) d
lookup-le-sum k v [] h = absurd (ground arith)
lookup-le-sum k v ((j, w) ∷ d) h = ground (arith, lookup-le-sum k v d)

-- An address keeps what it has been paid while the other recipients are read.
paid_map_of-keeps :
    (t : Text) (bech32 : Bytes → ℕ) (outputs : List TxOut) (recs : List (ℕ × ℕ)) (m : Dict ℕ ℕ)
    (k v : ℕ)
    → lookup k m ≡ some v
    → paid_by t bech32 outputs k ≤ v
    → (w : ℕ) × (lookup k (paid_map_of t bech32 outputs recs m) ≡ some w)
      × (paid_by t bech32 outputs k ≤ w)
unfolding paid_map_of paid_clean
paid_map_of-keeps t bech32 outputs [] m k v h le = (v, h, le)
paid_map_of-keeps t bech32 outputs ((name, amt_req) ∷ recs) m k v h le =
    let addr = t.clean name in
    let n = max (paid_clean t bech32 addr outputs) amt_req in
    let found = lookup-insert addr k n m in
    elim (Bool-cases (eqb addr 0 || eqb amt_req 0)) [
      | inl bad ↦ rw bad (paid_map_of-keeps t bech32 outputs recs m k v h le)
      | inr fine ↦ elim (Bool-cases (eqb addr k)) [
        | inl same ↦ rw fine (
            paid_map_of-keeps t bech32 outputs recs (insert addr n m) k n (ground arith)
              (ground arith))
        | inr other ↦
            rw fine
              (paid_map_of-keeps t bech32 outputs recs (insert addr n m) k v (ground arith) le)
      ]
    ]

-- One recipient whom the outputs pay more than a bound takes the total above it.
total_paid-over :
    (t : Text) (bech32 : Bytes → ℕ) (outputs : List TxOut) (recs : List (ℕ × ℕ)) (m : Dict ℕ ℕ)
    (storer bound : ℕ)
    → ArePaid t storer (paid_by t bech32 outputs) recs
    → any (λ r. ltb bound (paid_by t bech32 outputs (t.clean r.0))) recs ≡ true
    → bound < sum_by (λ (e : ℕ × ℕ). e.1) (paid_map_of t bech32 outputs recs m)
unfolding paid_map_of paid_clean
total_paid-over t bech32 outputs [] m storer bound all h = absurd (ground arith)
total_paid-over t bech32 outputs ((name, amt_req) ∷ recs) m storer bound (a, b, c, d, all) h =
    let addr = t.clean name in
    let n = max (paid_clean t bech32 addr outputs) amt_req in
    let fine : (eqb addr 0 || eqb amt_req 0) ≡ false = ground arith in
    elim (Bool-cases (ltb bound (paid_by t bech32 outputs (t.clean name)))) [
      | inl over ↦
          let (w, there, le) =
            paid_map_of-keeps t bech32 outputs recs (insert addr n m) addr n
              (lookup-insert_self addr n m) (ground arith) in
          let sum =
            lookup-le-sum addr w (paid_map_of t bech32 outputs recs (insert addr n m)) there in
          rw fine (ground (arith, sum, le))
      | inr within ↦
          rw fine (
            total_paid-over t bech32 outputs recs (insert addr n m) storer bound all (ground arith))
    ]

-- A payout that is covered, so that the amounts that it asks for are within the pool of its post, but
-- whose outputs pay one of its recipients more than the pool has, out of other money, is accepted by
-- the check of a block; and the handler leaves the registry as it was. So its epoch is not marked as
-- paid, and the balance of the pool is not brought up to date.
pub overpaid_payout_not_recorded :
    (t : Text) (now : ℕ) (a : Addresses) (get_balance : ℕ → ℕ) (meta : Meta) (outputs : List TxOut)
    (txid block_height : ℕ) (p : Post) (epoch : ℤ) (s : Registry)
    → text_field t k_art_id meta ≢ 0
    → get_post (text_field t k_art_id meta) s ≡ some p
    → IsCoveredBy t meta (paid_by t a.bech32 outputs) s (text_field t k_art_id meta) p epoch
    → any (λ r. ltb p.stats.pool_balance (paid_by t a.bech32 outputs (t.clean r.0))) meta.recipients
      ≡ true
    → (validate_single_payout t meta (paymap_of t a.bech32 outputs []) s ≡ passed tt)
      × (handle_payout t now a get_balance meta outputs txid block_height s ≡ some s)
unfolding handle_payout
overpaid_payout_not_recorded t now a get_balance meta outputs txid block_height p epoch s named
      known covered over =
    let (read, unpaid, proved, some_there, paid, within) = covered in
    let art_id = text_field t k_art_id meta in
    let total =
      total_paid-over t a.bech32 outputs meta.recipients []
        (valid_storer t (text_field t k_art_id meta) epoch meta s) p.stats.pool_balance paid over in
    let newer =
      sym (same_epoch_test t epoch p.stats.last_paid_epoch)
      ∙ IsUnpaid-is_rewind t epoch p.stats.last_paid_epoch unpaid in
    let run =
      payout_of-over t now a get_balance meta outputs txid block_height art_id p epoch s total read
        newer in
    (
      IsCoveredBy-passes t a.bech32 meta outputs s p epoch named known covered,
      elim (List-cases meta.recipients) [
        | inl nobody ↦ absurd (some_there nobody)
        | inr (r, recs, these) ↦ ground (arith, run)
      ],
    )
