-- ===== src/Validation/Passing.antt =====
-- What the checks of payouts need to let a payout through.
use mathlib.Core.Path.{subst}
use graffiti_protocol.Base.{
  ℕ, ◌+◌, ◌≡◌, ◌≢◌, refl, ap, sym, arith, false, List, [], ◌∷◌, none, some, eqb, leb_ℤ, pos_part,
  if◌then◌else◌, sum_by, ℤ, pos, negsuc, Dict, nat_key, pair_key, Option,
}
use graffiti_protocol.Ledger.{TxOut}
use graffiti_protocol.Script.{Bytes}
use graffiti_protocol.Registry.{Post, Registry, get_post}
use graffiti_protocol.Graffiti.{Text, Meta, k_art_id}
use graffiti_protocol.Validation.Posts.{text_field}
use graffiti_protocol.Validation.Payouts.{
  amount_of, read_int, is_rewind, validate_payout_proof, valid_storer, require_recipients,
  check_recipients, check_payout_of, validate_single_payout, paymap_of,
}
use graffiti_protocol.Validation.Reason.{passed}
use graffiti_protocol.Validation.Payable.{
  paid_by, paymap-paid_by, IsUnpaid, ArePaid, IsProved, IsCoveredBy,
}

pub IsUnpaid-is_rewind :
    (t : Text) (epoch : ℤ) (last : Option ℕ) → IsUnpaid epoch last → is_rewind t epoch last ≡ false
unfolding is_rewind
IsUnpaid-is_rewind t epoch none h = refl
IsUnpaid-is_rewind t (negsuc n) (some last_epoch) h = ground arith
IsUnpaid-is_rewind t (pos n) (some last_epoch) h = ground arith

check_recipients-passes :
    (t : Text) (storer : ℕ) (paymap : Dict ℕ ℕ) (recs : List (ℕ × ℕ)) (total_req : ℕ)
    → ArePaid t storer (λ k. amount_of k paymap) recs
    → check_recipients t storer paymap recs total_req ≡ passed (total_req + sum_by (λ r. r.1) recs)
unfolding check_recipients
check_recipients-passes t storer paymap [] total_req h = ap passed (omega arith)
check_recipients-passes t storer paymap ((name, amt_req) ∷ recs) total_req (a, b, c, d, rest) =
    let more = check_recipients-passes t storer paymap recs (total_req + amt_req) rest in
    ground (arith, more)

passes_proof :
    (t : Text) (meta : Meta) (epoch : ℤ) (art_id : ℕ) (reg : Registry)
    → IsProved t meta epoch art_id reg
    → (if leb_ℤ (pos 0) epoch
        then validate_payout_proof t meta (pos_part epoch) art_id reg
        else passed tt)
      ≡ passed tt
passes_proof t meta (pos n) art_id reg h = ground arith
passes_proof t meta (negsuc n) art_id reg h = ground arith

passes_recipients : (recs : List (ℕ × ℕ)) → recs ≢ [] → require_recipients recs ≡ none
unfolding require_recipients
passes_recipients [] h = absurd (h refl)
passes_recipients (r ∷ recs) h = refl

-- A payout of a known post that is covered is accepted.
pub IsCoveredBy-passes :
    (t : Text) (bech32 : Bytes → ℕ) (meta : Meta) (outputs : List TxOut) (reg : Registry) (p : Post)
    (epoch : ℤ)
    → text_field t k_art_id meta ≢ 0
    → get_post (text_field t k_art_id meta) reg ≡ some p
    → IsCoveredBy t meta (paid_by t bech32 outputs) reg (text_field t k_art_id meta) p epoch
    → validate_single_payout t meta (paymap_of t bech32 outputs []) reg ≡ passed tt
unfolding validate_single_payout check_payout_of read_int
IsCoveredBy-passes t bech32 meta outputs reg p epoch named known
      (read, unpaid, proved, there, paid, within) =
    let art_id = text_field t k_art_id meta in
    let storer = valid_storer t art_id epoch meta reg in
    let paymap = paymap_of t bech32 outputs [] in
    let a = IsUnpaid-is_rewind t epoch p.stats.last_paid_epoch unpaid in
    let b = passes_proof t meta epoch art_id reg proved in
    let c = passes_recipients meta.recipients there in
    let d = check_recipients-passes t storer paymap meta.recipients 0 (
      subst (λ f. ArePaid t storer f meta.recipients) (sym (paymap-paid_by t bech32 outputs))
        paid) in
    let e : eqb (text_field t k_art_id meta) 0 ≡ false = ground arith in
    rw (e, known, check_payout_of, read_int, read, a, b, c, d) (ground arith)
