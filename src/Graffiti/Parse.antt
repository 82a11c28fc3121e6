-- ===== src/Graffiti/Parse.antt =====
-- The parsers of the three events, `parse_payload` and `parse_from_script` of
-- src/tsarchain/contracts/graffiti.py. An exception of a parser is caught by `parse_payload`, so it is
-- `none` as a refusal is.
use graffiti_protocol.Base.{
  ℕ, not, List, [], ◌∷◌, Option, none, some, length, drop, eqb, ltb, leb, leb_ℤ, ltb_ℤ, ◌&&◌, ◌||◌,
  ◌>>=◌, ◌>>◌, guard, if◌then◌else◌, pair_key, ℤ, pos, negsuc, pos_part,
}
use graffiti_protocol.Script.{Bytes, read_opreturn_payload}
use graffiti_protocol.Graffiti.Fees.{ceil_div, comment_min_fee}
use graffiti_protocol.Graffiti.Payload.{
  comment_max_bytes, plain, proof, k_event, k_offset, k_length, k_hash, k_seed, k_height, k_epoch,
  k_storer, k_art_id, k_sha256, k_size, k_mime, k_receipt, k_creator, k_mroot, k_mchunk, k_mcount,
  k_comment, k_amount, k_tip, k_commenter, k_comment_len, k_comment_hex, get, set, starts_with,
  int_of, str_of, truthy, int_or, is_text, absent_or, normalize_art_id, Value, RawRecipient, Meta,
  Text, Event, number, text, null, post, comment, payout,
}

module _ (t : Text) where
  -- `str(mroot).strip().lower()` and the integers, once they agree with the size.
  unfoldable merkle_fields : Value → ℤ → ℤ → ℤ → Meta → Option Meta
  unfolding str_of
  merkle_fields mroot mchunk mcount size obj =
      let chunk = pos_part mchunk in
      let expect = ceil_div (pos_part size) chunk in
      if t.is_sha256_hex (str_of t mroot)
        && not (leb_ℤ mchunk (pos 0))
        && not (leb_ℤ mcount (pos 0))
        && eqb expect (pos_part mcount)
      then some (
          set (plain k_mcount) (number mcount) (
            set (plain k_mchunk) (number mchunk)
              (set (plain k_mroot) (text (t.clean (str_of t mroot))) obj)))
      else none

  -- `_parse_post_merkle`, for a size that is an integer and not negative.
  unfoldable pub parse_post_merkle : ℤ → Meta → Option Meta
  unfolding truthy int_of merkle_fields
  parse_post_merkle size obj =
      let root = get (plain k_mroot) obj in
      let chunk = get (plain k_mchunk) obj in
      let count = get (plain k_mcount) obj in
      let all_there = truthy t root && truthy t chunk && truthy t count in
      let some_there = truthy t root || truthy t chunk || truthy t count in
      if some_there
      then (if all_there
          then (do
            mroot ← root
            mchunk ← chunk
            mcount ← count
            mchunk_i ← int_of t mchunk
            mcount_i ← int_of t mcount
            merkle_fields mroot mchunk_i mcount_i size obj)
          else none)
      else some obj

  -- The art id that a post with a creator is given, or refused for.
  unfoldable pub post_art_id : ℕ → ℕ → Option Value → Option ℕ
  post_art_id sha creator none = some (t.decorate (t.art_hash sha creator))
  post_art_id sha creator (some null) = some (t.decorate (t.art_hash sha creator))
  post_art_id sha creator (some (text s)) =
      let base_hash = t.art_hash sha creator in
      let aid_norm = t.clean s in
      if eqb aid_norm (t.decorate base_hash) || eqb aid_norm base_hash then some aid_norm else none
  post_art_id sha creator (some _) = none

  unfoldable pub set_post_art_id : Meta → Option Meta
  unfolding truthy post_art_id
  set_post_art_id obj = elim (get (plain k_creator) obj) [
    | some (text creator) ↦ elim (get (plain k_sha256) obj) [
      | some (text sha) ↦
          if truthy t (some (text creator))
          then (elim (post_art_id sha creator (get (plain k_art_id) obj)) [
            | none ↦ none
            | some art_id ↦ some (set (plain k_art_id) (text art_id) obj)
          ])
          else some obj
      | _ ↦ none
    ]
    | _ ↦ some obj
  ]

  -- `type(obj.get("size")) is int and obj["size"] >= 0`
  unfoldable pub size_field : Option Value → Option ℤ
  size_field (some (number n)) = if ltb_ℤ n (pos 0) then none else some n
  size_field _ = none

  unfoldable pub parse_post_payload : Meta → Option Meta
  unfolding is_text absent_or size_field set_post_art_id parse_post_merkle
  parse_post_payload obj = do
    guard (is_text t t.is_sha256_hex (get (plain k_sha256) obj))
    size ← size_field (get (plain k_size) obj)
    guard (is_text t t.is_mime (get (plain k_mime) obj))
    guard (is_text t t.is_address (get (plain k_storer) obj))
    guard (is_text t (λ s. not (eqb (t.clean s) 0)) (get (plain k_receipt) obj))
    guard (absent_or t t.is_address (get (plain k_creator) obj))
    guard (absent_or t t.is_art_id (get (plain k_art_id) obj))
    named ← set_post_art_id obj
    parse_post_merkle size named

  -- `bytes.fromhex(comment_hex)`, its length
  unfoldable pub comment_size : Option Value → Option (ℕ × ℕ)
  comment_size none = none
  comment_size (some (text s)) = elim (t.hex_size s) [ none ↦ none | some n ↦ some (s, n) ]
  comment_size (some _) = none

  unfoldable pub parse_comment_payload : Meta → Option Meta
  unfolding normalize_art_id comment_size int_or truthy is_text absent_or
  parse_comment_payload obj = do
    art_id ← normalize_art_id t (get (plain k_art_id) obj)
    (comment_hex, size) ← comment_size (get (plain k_comment) obj)
    guard (ltb 0 size && leb size comment_max_bytes)
    amount ← int_or t (pos 0) (get (plain k_amount) obj)
    guard (leb_ℤ (pos comment_min_fee) amount)
    tip ← int_or t (pos 0) (get (plain k_tip) obj)
    guard (leb_ℤ (pos 0) tip)
    guard
        (truthy t (get (plain k_creator) obj) && is_text t t.is_address (get (plain k_creator) obj))
    guard (absent_or t t.is_address (get (plain k_commenter) obj))
    some (
        set (plain k_comment_hex) (text comment_hex)
          (set (plain k_comment_len) (number (pos size)) (set (plain k_art_id) (text art_id) obj)))

  -- `str(item.get("addr", ""))`
  unfoldable pub str_or_empty : Option Value → ℕ
  unfolding str_of
  str_or_empty none = 0
  str_or_empty (some v) = str_of t v

  unfoldable pub parse_payout_recipient : Option RawRecipient → Option (ℕ × ℕ)
  unfolding str_or_empty int_or
  parse_payout_recipient none = none
  parse_payout_recipient (some item) = do
    amt ← int_or t (pos 0) item.amount
    guard (ltb_ℤ (pos 0) amt && t.is_address (t.clean (str_or_empty item.addr)))
    some (t.clean (str_or_empty item.addr), pos_part amt)

  unfoldable pub parse_payout_items : List (Option RawRecipient) → Option (List (ℕ × ℕ))
  unfolding parse_payout_recipient
  parse_payout_items [] = some []
  parse_payout_items (item ∷ items) = do
    rec ← parse_payout_recipient item
    recs ← parse_payout_items items
    some (rec ∷ recs)

  unfoldable pub parse_payout_recipients :
      Option (List (Option RawRecipient)) → Option (List (ℕ × ℕ))
  unfolding parse_payout_items
  parse_payout_recipients none = none
  parse_payout_recipients (some []) = none
  parse_payout_recipients (some (item ∷ items)) = parse_payout_items (item ∷ items)

  -- `type(val) is str and len(val) == 64`
  unfoldable hash_value : Value → Option Value
  hash_value (text s) = if eqb (t.size_of s) 64 then some (text s) else none
  hash_value _ = none

  -- What is stored for a hint.
  unfoldable pub hint_value : ℕ → Value → Option Value
  unfolding int_of str_of hash_value
  hint_value k v =
      if eqb k k_offset || eqb k k_length || eqb k k_height
      then (elim (int_of t v) [ none ↦ none | some n ↦ some (number n) ])
      else (if eqb k k_hash
          then hash_value v
          else (if eqb k k_storer
              then (let sval = t.clean (str_of t v) in
                  if eqb sval 0 then none else some (text sval))
              else some (text (str_of t v))))

  -- The field that a hint is read from: the prefixed one where it is there.
  unfoldable pub hint_source : ℕ → Meta → Option Value
  hint_source k obj = elim (get (proof k) obj) [ none ↦ get (plain k) obj | some v ↦ some v ]

  unfoldable pub parse_proof_hints : List ℕ → Meta → Option Meta
  unfolding hint_source hint_value
  parse_proof_hints [] obj = some obj
  parse_proof_hints (k ∷ ks) obj = elim (hint_source k obj) [
    | none ↦ parse_proof_hints ks obj
    | some v ↦ elim (hint_value k v) [
      | none ↦ none
      | some w ↦ parse_proof_hints ks (set (proof k) w obj)
    ]
  ]

  unfoldable pub parse_payout_proof_hints : Meta → Option Meta
  unfolding parse_proof_hints
  parse_payout_proof_hints obj =
      parse_proof_hints (k_offset ∷ k_length ∷ k_hash ∷ k_seed ∷ k_height ∷ k_epoch ∷ k_storer ∷ [])
        obj

  unfoldable pub parse_payout_payload : Meta → Option Meta
  unfolding normalize_art_id int_or parse_payout_recipients parse_payout_proof_hints
  parse_payout_payload obj = do
    art_id ← normalize_art_id t (get (plain k_art_id) obj)
    epoch ← int_or t (negsuc 0) (get (plain k_epoch) obj)
    guard (leb_ℤ (pos 0) epoch)
    recs ← parse_payout_recipients obj.raw_recipients
    parse_payout_proof_hints (record (set (plain k_art_id) (text art_id) obj) { recipients = recs })

  -- The parser of the event, and the event under its name.
  unfoldable pub parse_event : ℕ → Meta → Option (Event × Meta)
  unfolding parse_post_payload parse_comment_payload parse_payout_payload
  parse_event event obj =
      if eqb event t.t_post
      then (do
        parsed ← parse_post_payload obj
        some (post, set (plain k_event) (text event) parsed))
      else (if eqb event t.t_comment
          then (do
            parsed ← parse_comment_payload obj
            some (comment, set (plain k_event) (text event) parsed))
          else (if eqb event t.t_payout
              then (do
                parsed ← parse_payout_payload obj
                some (payout, set (plain k_event) (text event) parsed))
              else none))

  -- `str(obj.get("event", "POST")).strip().upper()`
  unfoldable pub event_of : Option Value → ℕ
  unfolding str_of
  event_of none = t.t_post
  event_of (some v) = t.upper (str_of t v)

  unfoldable pub parse_payload : Bytes → Option (Event × Meta)
  unfolding starts_with parse_event event_of
  parse_payload raw =
      let blob = drop (length t.magic) raw in
      if starts_with t.magic raw && ltb 0 (length blob)
      then (do obj ← t.read_json blob; parse_event (event_of (get (plain k_event) obj)) obj)
      else none

  -- The script is given by what it serialises to.
  unfoldable pub parse_from_script : Bytes → Option (Event × Meta)
  unfolding parse_payload
  parse_from_script raw = elim (read_opreturn_payload raw) [
    | none ↦ none
    | some payload ↦ parse_payload payload
  ]
