-- ===== src/Graffiti/Payload.antt =====
-- The payloads: `parse_payload` and the parsers of the three events, of
-- src/tsarchain/contracts/graffiti.py.
-- A text is a number, 0 the empty one. What the parsers ask of texts (Python's str and re, bech32 and
-- hashing) is the record Text; json.loads is `read_json`, `none` for an exception or no dict.
use graffiti_protocol.Base.{
  ℕ, Bool, true, false, not, List, [], ◌∷◌, Option, none, some, eqb, leb_ℤ, ◌&&◌, if◌then◌else◌,
  Dict, lookup, insert, pair_key, ℤ, pos,
}
use graffiti_protocol.Script.{Bytes}

abbrev pub comment_max_bytes : ℕ
comment_max_bytes = 140

-- A JSON value: an integer, a text, null, or another, told apart by a number.
pub data Value : Type 0 where
  number : ℤ → Value
  text : ℕ → Value
  other : ℕ → Value
  null : Value

-- A name of a field, without and with the prefix `proof_`.
abbrev pub Field : Type 0
Field = ℕ × ℕ

abbrev pub plain : ℕ → Field
plain k = (0, k)

abbrev pub proof : ℕ → Field
proof k = (1, k)

abbrev pub k_event : ℕ
k_event = 0

abbrev pub k_offset : ℕ
k_offset = 1

abbrev pub k_length : ℕ
k_length = 2

abbrev pub k_hash : ℕ
k_hash = 3

abbrev pub k_seed : ℕ
k_seed = 4

abbrev pub k_height : ℕ
k_height = 5

abbrev pub k_epoch : ℕ
k_epoch = 6

abbrev pub k_storer : ℕ
k_storer = 7

abbrev pub k_art_id : ℕ
k_art_id = 8

abbrev pub k_sha256 : ℕ
k_sha256 = 9

abbrev pub k_size : ℕ
k_size = 10

abbrev pub k_mime : ℕ
k_mime = 11

abbrev pub k_receipt : ℕ
k_receipt = 12

abbrev pub k_creator : ℕ
k_creator = 13

abbrev pub k_mroot : ℕ
k_mroot = 14

abbrev pub k_mchunk : ℕ
k_mchunk = 15

abbrev pub k_mcount : ℕ
k_mcount = 16

abbrev pub k_comment : ℕ
k_comment = 17

abbrev pub k_amount : ℕ
k_amount = 18

abbrev pub k_tip : ℕ
k_tip = 19

abbrev pub k_commenter : ℕ
k_commenter = 20

abbrev pub k_comment_len : ℕ
k_comment_len = 21

abbrev pub k_ts : ℕ
k_ts = 23

abbrev pub k_comment_hex : ℕ
k_comment_hex = 22

pub record RawRecipient : Type 0 where
  pub addr : Option Value
  pub amount : Option Value

-- `raw_recipients` is `none` when the field is missing or no list, and an item of it when it is no
-- dict; `recipients` is the list that the parser puts in its place.
pub record Meta : Type 0 where
  pub fields : Dict Field Value
  pub raw_recipients : Option (List (Option RawRecipient))
  pub recipients : List (ℕ × ℕ)

-- `clean` is `strip().lower()`; `size_of` is `len`, and `hex_size` the number of bytes of a text in
-- hex. `int_text` and `int_other` are `int(…)`, `none` where it raises.
pub record Text : Type 0 where
  pub magic : Bytes
  pub read_json : Bytes → Option Meta
  pub clean : ℕ → ℕ
  pub upper : ℕ → ℕ
  pub size_of : ℕ → ℕ
  pub hex_size : ℕ → Option ℕ
  pub int_text : ℕ → Option ℤ
  pub int_other : ℕ → Option ℤ
  pub str_number : ℤ → ℕ
  pub str_other : ℕ → ℕ
  pub str_null : ℕ
  pub is_true : ℕ → Bool
  pub is_sha256_hex : ℕ → Bool
  pub is_mime : ℕ → Bool
  pub is_address : ℕ → Bool
  pub is_art_id : ℕ → Bool
  pub has_prefix : ℕ → Bool
  pub is_prefixed_id : ℕ → Bool
  pub is_hex64 : ℕ → Bool
  pub decorate : ℕ → ℕ
  pub art_hash : ℕ → ℕ → ℕ
  pub t_post : ℕ
  pub t_comment : ℕ
  pub t_payout : ℕ

abbrev pub get : Field → Meta → Option Value
get k obj = lookup k obj.fields

abbrev pub set : Field → Value → Meta → Meta
set k v obj = record obj { fields = insert k v obj.fields }

-- `bytes.startswith`
unfoldable pub starts_with : Bytes → Bytes → Bool
starts_with [] raw = true
starts_with (b ∷ magic) [] = false
starts_with (b ∷ magic) (c ∷ raw) = eqb b c && starts_with magic raw

pub data Event : Type 0 where
  post : Event
  comment : Event
  payout : Event

module _ (t : Text) where
  -- `int(v)`
  unfoldable pub int_of : Value → Option ℤ
  int_of (number n) = some n
  int_of (text s) = t.int_text s
  int_of (other o) = t.int_other o
  int_of null = none

  -- `str(v)`
  unfoldable pub str_of : Value → ℕ
  str_of (number n) = t.str_number n
  str_of (text s) = s
  str_of (other o) = t.str_other o
  str_of null = t.str_null

  -- `bool(v)`, where a missing value is None
  unfoldable pub truthy : Option Value → Bool
  truthy none = false
  truthy (some (number n)) = not (leb_ℤ n (pos 0) && leb_ℤ (pos 0) n)
  truthy (some (text s)) = not (eqb s 0)
  truthy (some (other o)) = t.is_true o
  truthy (some null) = false

  -- `int(obj.get(k, d))`
  unfoldable pub int_or : ℤ → Option Value → Option ℤ
  unfolding int_of
  int_or d none = some d
  int_or d (some v) = int_of v

  -- A test of a text, which raises, and so refuses, on another value.
  unfoldable pub is_text : (ℕ → Bool) → Option Value → Bool
  is_text p (some (text s)) = p s
  is_text p _ = false

  -- `_is_valid_tsar_address(v)` for a value that is there and true
  unfoldable pub absent_or : (ℕ → Bool) → Option Value → Bool
  unfolding truthy is_text
  absent_or p v = if truthy v then is_text p v else true

  -- `_normalize_art_id(v, prefer_prefix=False)`
  unfoldable pub normalize_art_id : Option Value → Option ℕ
  normalize_art_id (some (text s)) =
      let aid = t.clean s in
      if t.has_prefix aid
      then (if t.is_prefixed_id aid then some aid else none)
      else (if t.is_hex64 aid then some aid else none)
  normalize_art_id _ = none
