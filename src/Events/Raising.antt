-- ===== src/Events/Raising.antt =====
-- A comment that the parser accepts and that the registry cannot read.
use graffiti_protocol.Base.{
  ℕ, ◌≡◌, ◌≢◌, refl, sym, ◌∙◌, arith, true, false, List, Option, none, some, eqb, ltb, leb, leb_ℤ,
  ◌&&◌, ◌>>=◌, ◌>>◌, guard, ℤ, pos, Bool, pair_key, ◌==◌, ap,
}
use graffiti_protocol.Ledger.{TxOut}
use graffiti_protocol.Registry.{Post, Registry, get_post}
use graffiti_protocol.Graffiti.{
  Text, Value, number, text, Meta, plain, get, set, k_art_id, k_amount, k_tip, k_ts, k_comment,
  k_comment_len, k_comment_hex, comment_min_fee, comment_max_bytes, int_of, int_or, truthy, is_text,
  absent_or, k_creator, k_commenter, Field, normalize_art_id, comment_size, parse_comment_payload,
}
use graffiti_protocol.Validation.{Addresses, text_field}
use graffiti_protocol.Validation.Unproved.{other_field}
use graffiti_protocol.Events.Record.{comment_on, handle_comment}

bind_inverse :
    {A : Type 0} {B : Type 0} (m : Option A) (k : A → Option B) (b : B)
    → (m >>= k) ≡ some b
    → (a : A) × (m ≡ some a) × (k a ≡ some b)
bind_inverse none k b h = absurd (ground arith)
bind_inverse (some a) k b h = (a, refl, h)

guard_inverse :
    {B : Type 0} (c : Bool) (k : Option B) (b : B)
    → (guard c >> k) ≡ some b
    → (c ≡ true) × (k ≡ some b)
guard_inverse true k b h = (refl, h)
guard_inverse false k b h = absurd (ground arith)

-- What the parser of a comment has read, and the fields that it has set.
parsed_lem :
    (t : Text) (obj meta : Meta)
    → parse_comment_payload t obj ≡ some meta
    → (amount : ℤ) × (tip : ℤ) × (u v w : Value) × (int_or t (pos 0) (get (plain k_amount) obj)
        ≡ some amount)
      × (leb_ℤ (pos comment_min_fee) amount ≡ true)
      × (int_or t (pos 0) (get (plain k_tip) obj) ≡ some tip)
      × (meta
          ≡ set (plain k_comment_hex) u (set (plain k_comment_len) v (set (plain k_art_id) w obj)))
unfolding parse_comment_payload
parsed_lem t obj meta h =
    let (art_id, e1, h1) = bind_inverse (normalize_art_id t (get (plain k_art_id) obj)) _ meta h in
    let ((comment_hex, size), e2, h2) =
      bind_inverse (comment_size t (get (plain k_comment) obj)) _ meta h1 in
    let (e3, h3) = guard_inverse (ltb 0 size && leb size comment_max_bytes) _ meta h2 in
    let (amount, e4, h4) = bind_inverse (int_or t (pos 0) (get (plain k_amount) obj)) _ meta h3 in
    let (e5, h5) = guard_inverse (leb_ℤ (pos comment_min_fee) amount) _ meta h4 in
    let (tip, e6, h6) = bind_inverse (int_or t (pos 0) (get (plain k_tip) obj)) _ meta h5 in
    let (e7, h7) = guard_inverse (leb_ℤ (pos 0) tip) _ meta h6 in
    let (e8, h8) =
      guard_inverse
        (truthy t (get (plain k_creator) obj) && is_text t t.is_address (get (plain k_creator) obj))
        _ meta h7 in
    let (e9, h9) =
      guard_inverse (absent_or t t.is_address (get (plain k_commenter) obj)) _ meta h8 in
    (amount, tip, text comment_hex, number (pos size), text art_id, e4, e5, e6, ground arith)

comment_on-raises :
    (t : Text) (now : ℕ) (a : Addresses) (get_balance : ℕ → ℕ) (meta : Meta) (outputs : List TxOut)
    (txid block_height art_id : ℕ) (p : Post) (s : Registry) (amount tip : ℤ)
    → int_or t (pos 0) (get (plain k_amount) meta) ≡ some amount
    → leb_ℤ (pos comment_min_fee) amount ≡ true
    → int_or t (pos 0) (get (plain k_tip) meta) ≡ some tip
    → int_or t (pos now) (get (plain k_ts) meta) ≡ none
    → comment_on t now a get_balance meta outputs txid block_height art_id p s ≡ none
unfolding comment_on
comment_on-raises t now a get_balance meta outputs txid block_height art_id p s amount tip e1 e2 e3
      e4 =
    rw (e1, e3, e2, e4) refl

-- The fields that the parser leaves alone.
kept_field :
    (x y z : Value) (obj meta : Meta)
    → meta ≡ set (plain k_comment_hex) x (set (plain k_comment_len) y (set (plain k_art_id) z obj))
    → (k : Field) → (plain k_comment_hex == k) ≡ false
    → (plain k_comment_len == k) ≡ false
    → (plain k_art_id == k) ≡ false
    → get k meta ≡ get k obj
kept_field x y z obj meta same k p q r =
    ap (get k) same
    ∙ other_field (plain k_comment_hex) k x
        (set (plain k_comment_len) y (set (plain k_art_id) z obj)) p
    ∙ other_field (plain k_comment_len) k y (set (plain k_art_id) z obj) q
    ∙ other_field (plain k_art_id) k z obj r

unread :
    (t : Text) (d : ℤ) (obj : Meta) (v : Value)
    → get (plain k_ts) obj ≡ some v
    → int_of t v ≡ none
    → int_or t d (get (plain k_ts) obj) ≡ none
unfolding int_or
unread t d obj v there bad = rw there bad

-- A comment whose time is given and is nothing that `int` reads is accepted by the parser all the same,
-- which does not look at the time; and if it is on a known post with a creator, then the handler that
-- records it raises, and nothing is recorded.
unread_time_raises :
    (t : Text) (now : ℕ) (a : Addresses) (get_balance : ℕ → ℕ) (obj meta : Meta)
    (outputs : List TxOut) (txid block_height : ℕ) (p : Post) (s : Registry) (v : Value)
    → parse_comment_payload t obj ≡ some meta
    → get (plain k_ts) obj ≡ some v
    → int_of t v ≡ none
    → text_field t k_art_id meta ≢ 0
    → get_post (text_field t k_art_id meta) s ≡ some p
    → p.creator ≢ 0
    → handle_comment t now a get_balance meta outputs txid block_height s ≡ none
unfolding handle_comment
unread_time_raises t now a get_balance obj meta outputs txid block_height p s v parsed there bad
      named known creator =
    let (amount, tip, x, y, z, e1, e2, e3, same) = parsed_lem t obj meta parsed in
    let read = kept_field x y z obj meta same in
    let run =
      comment_on-raises t now a get_balance meta outputs txid block_height
        (text_field t k_art_id meta) p s amount tip
        (rw (sym (read (plain k_amount) refl refl refl)) at e1) e2
        (rw (sym (read (plain k_tip) refl refl refl)) at e3)
        (rw (sym (read (plain k_ts) refl refl refl)) at (unread t (pos now) obj v there bad)) in
    let first : eqb (text_field t k_art_id meta) 0 ≡ false = ground arith in
    let second : eqb p.creator 0 ≡ false = ground arith in rw (first, known, second) run
