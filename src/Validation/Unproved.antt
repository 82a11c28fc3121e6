-- ===== src/Validation/Unproved.antt =====
-- A payout without the epoch of a proof: what the parser puts in its place, and what the check of the
-- proof makes of it.
use graffiti_protocol.Base.{
  ℕ, ◌≡◌, ◌∙◌, refl, arith, inl, inr, true, false, List, [], ◌∷◌, none, some, leb_ℤ, Bool-cases,
  Option-cases, ℤ, pos, negsuc, pos_part, lookup-insert, lookup-insert_self, sym, nat_key, pair_key,
  ◌==◌,
}
use graffiti_protocol.Registry.{Registry}
use graffiti_protocol.Graffiti.{
  Text, Value, number, text, Field, Meta, plain, proof, get, set, k_offset, k_length, k_hash,
  k_seed, k_height, k_epoch, k_storer, k_art_id, int_of, str_of, int_or, normalize_art_id,
  hint_source, hint_value, parse_proof_hints, parse_payout_proof_hints, parse_payout_recipients,
  parse_payout_payload,
}
use graffiti_protocol.Validation.Payouts.{
  read_int, proof_epoch_of, has_proof, validate_payout_proof,
}
use graffiti_protocol.Validation.Reason.{passed}

pub other_field :
    (k j : Field) (w : Value) (obj : Meta) → (k == j) ≡ false → get j (set k w obj) ≡ get j obj
other_field k j w obj e = lookup-insert k j w obj.fields ∙ rw e refl

-- One hint changes its own field alone.
abbrev Keeps : ℕ → Meta → Meta → Type 0
Keeps k obj obj' = (j : Field) → (proof k == j) ≡ false → get j obj' ≡ get j obj

hint_lem :
    (t : Text) (k : ℕ) (ks : List ℕ) (obj meta : Meta)
    → parse_proof_hints t (k ∷ ks) obj ≡ some meta
    → (obj' : Meta) × (parse_proof_hints t ks obj' ≡ some meta) × Keeps k obj obj'
unfolding parse_proof_hints
hint_lem t k ks obj meta h = elim (Option-cases (hint_source t k obj)) [
  | inl absent ↦ (obj, ground arith, λ j e. refl)
  | inr (v, there) ↦ elim (Option-cases (hint_value t k v)) [
    | inl refusal ↦ absurd (ground arith)
    | inr (w, kept) ↦ (set (proof k) w obj, ground arith, λ j e. other_field (proof k) j w obj e)
  ]
]

-- The hint of the epoch, when only the plain one is there.
epoch_lem :
    (t : Text) (n : ℤ) (ks : List ℕ) (obj meta : Meta)
    → get (proof k_epoch) obj ≡ none
    → get (plain k_epoch) obj ≡ some (number n)
    → parse_proof_hints t (k_epoch ∷ ks) obj ≡ some meta
    → parse_proof_hints t ks (set (proof k_epoch) (text (t.str_number n)) obj) ≡ some meta
unfolding parse_proof_hints hint_source hint_value str_of
epoch_lem t n ks obj meta absent there h = ground arith

hints_lem :
    (t : Text) (n : ℤ) (obj meta : Meta)
    → get (proof k_epoch) obj ≡ none
    → get (plain k_epoch) obj ≡ some (number n)
    → parse_payout_proof_hints t obj ≡ some meta
    → (get (proof k_epoch) meta ≡ some (text (t.str_number n)))
      × (get (plain k_epoch) meta ≡ some (number n))
unfolding parse_payout_proof_hints
hints_lem t n obj meta absent there h =
    let (o1, h1, e1) =
      hint_lem t k_offset (k_length ∷ k_hash ∷ k_seed ∷ k_height ∷ k_epoch ∷ k_storer ∷ []) obj meta
        h in
    let (o2, h2, e2) =
      hint_lem t k_length (k_hash ∷ k_seed ∷ k_height ∷ k_epoch ∷ k_storer ∷ []) o1 meta h1 in
    let (o3, h3, e3) = hint_lem t k_hash (k_seed ∷ k_height ∷ k_epoch ∷ k_storer ∷ []) o2 meta h2 in
    let (o4, h4, e4) = hint_lem t k_seed (k_height ∷ k_epoch ∷ k_storer ∷ []) o3 meta h3 in
    let (o5, h5, e5) = hint_lem t k_height (k_epoch ∷ k_storer ∷ []) o4 meta h4 in
    let same : (j : Field)
        → (proof k_offset == j) ≡ false
        → (proof k_length == j) ≡ false
        → (proof k_hash == j) ≡ false
        → (proof k_seed == j) ≡ false
        → (proof k_height == j) ≡ false
        → get j o5 ≡ get j obj =
      λ j a b c d e. e5 j e ∙ e4 j d ∙ e3 j c ∙ e2 j b ∙ e1 j a in
    let h6 =
      epoch_lem t n (k_storer ∷ []) o5 meta (same (proof k_epoch) refl refl refl refl refl ∙ absent)
        (same (plain k_epoch) refl refl refl refl refl ∙ there) h5 in
    let (o7, h7, e7) =
      hint_lem t k_storer [] (set (proof k_epoch) (text (t.str_number n)) o5) meta h6 in
    let e : o7 ≡ meta = unfold parse_proof_hints in ground arith in
    (
      rw (sym e) (
          e7 (proof k_epoch) refl
          ∙ lookup-insert_self (proof k_epoch) (text (t.str_number n)) o5.fields),
      rw (sym e) (
          e7 (plain k_epoch) refl
          ∙ other_field (proof k_epoch) (plain k_epoch) (text (t.str_number n)) o5 refl
          ∙ same (plain k_epoch) refl refl refl refl refl
          ∙ there),
    )

payload_lem :
    (t : Text) (n : ℤ) (obj meta : Meta)
    → get (proof k_epoch) obj ≡ none
    → get (plain k_epoch) obj ≡ some (number n)
    → parse_payout_payload t obj ≡ some meta
    → (get (proof k_epoch) meta ≡ some (text (t.str_number n)))
      × (get (plain k_epoch) meta ≡ some (number n))
      × (leb_ℤ (pos 0) n ≡ true)
unfolding parse_payout_payload int_or int_of
payload_lem t n obj meta absent there h =
    elim (Option-cases (normalize_art_id t (get (plain k_art_id) obj))) [
      | inl refusal ↦ absurd (ground arith)
      | inr (art_id, named) ↦ elim (Bool-cases (leb_ℤ (pos 0) n)) [
        | inr negative ↦ absurd (ground arith)
        | inl fits ↦ elim (Option-cases (parse_payout_recipients t obj.raw_recipients)) [
          | inl refusal ↦ absurd (ground arith)
          | inr (recs, there_are) ↦
              let start : Meta = record (set (plain k_art_id) (text art_id) obj) {
                recipients = recs;
              } in
              let run : parse_payout_proof_hints t start ≡ some meta = ground arith in
              let (a, b) =
                hints_lem t n start meta
                  (other_field (plain k_art_id) (proof k_epoch) (text art_id) obj refl ∙ absent)
                  (other_field (plain k_art_id) (plain k_epoch) (text art_id) obj refl ∙ there)
                  run in
              (a, b, fits)
        ]
      ]
    ]

text_read :
    (t : Text) (d n : ℤ) (s : ℕ) → t.int_text s ≡ some n → read_int t d (some (text s)) ≡ passed n
unfolding read_int int_or int_of
text_read t d n s reads = ground arith

epoch_read :
    (t : Text) (n : ℤ) (meta : Meta)
    → t.int_text (t.str_number n) ≡ some n
    → leb_ℤ (pos 0) n ≡ true
    → get (proof k_epoch) meta ≡ some (text (t.str_number n))
    → proof_epoch_of t meta ≡ passed n
unfolding proof_epoch_of
epoch_read t n meta reads fits there =
    rw (there, text_read t (negsuc 0) n (t.str_number n) reads, fits) refl

-- A payout that says its epoch in a number, and nothing of the epoch of a proof, passes the check of
-- its proof, whatever proofs the registry has, if `int` reads what `str` writes of that number: the
-- parser has put the payout's own epoch in the place of the proof's.
pub unproved_payout_passes :
    (t : Text) (n : ℤ) (obj meta : Meta) (art_id : ℕ) (reg : Registry)
    → t.int_text (t.str_number n) ≡ some n
    → get (proof k_epoch) obj ≡ none
    → get (plain k_epoch) obj ≡ some (number n)
    → parse_payout_payload t obj ≡ some meta
    → validate_payout_proof t meta (pos_part n) art_id reg ≡ passed tt
unfolding validate_payout_proof
unproved_payout_passes t n obj meta art_id reg reads absent there h =
    let (a, b, fits) = payload_lem t n obj meta absent there h in
    elim (Bool-cases (has_proof t art_id (pos_part n) reg)) [
      | inl known ↦ rw known refl
      | inr unknown ↦ rw (unknown, epoch_read t n meta reads fits a) (ground arith)
    ]
