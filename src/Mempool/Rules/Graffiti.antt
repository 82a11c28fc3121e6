-- ===== src/Mempool/Rules/Graffiti.antt =====
-- The graffiti payloads of a transaction as the mempool reads them: `_validate_graffiti_output`,
-- `_enforce_mempool_post_limit`, `_has_exceeded_mempool_post_limit` and `_find_payout_meta` of
-- src/tsarchain/mempool/validation.py. A text of the metadata is read by
-- `str(meta.get(k, "")).strip().lower()`.
use graffiti_protocol.Base.{
  ℕ, suc, Bool, false, not, List, [], ◌∷◌, Option, none, some, length, any, eqb, ltb, leb, leb_ℤ,
  ltb_ℤ, ◌&&◌, ◌||◌, if◌then◌else◌, pos, pos_part, sum_by, pair_key,
}
use graffiti_protocol.Ledger.{Tx, TxOut}
use graffiti_protocol.Script.{Bytes, last_pushdata}
use graffiti_protocol.Registry.{Post, Registry, get_post}
use graffiti_protocol.Graffiti.{
  Text, Meta, Event, post, comment, payout, plain, get, k_art_id, k_sha256, k_creator, k_mroot,
  k_size, k_comment_len, k_amount, k_tip, comment_max_bytes, comment_min_fee, str_or_empty, int_or,
  starts_with, calc_upload_fee_sats, parse_payload, parse_from_script,
}
use graffiti_protocol.Validation.{Addresses, paid_to, max_graffiti_opret, graffiti_max_size_bytes}
use graffiti_protocol.Mempool.Rules.Outcome.{
  Answer, accepted, ◌>>=◌, ◌>>◌, ensure, or_raise, graffiti_opreturn_too_large,
  graffiti_payload_invalid, graffiti_size_invalid, graffiti_size_exceeds_limit,
  graffiti_duplicate_post, graffiti_comment_empty, graffiti_comment_too_large,
  graffiti_comment_fee_too_low, graffiti_comment_tip_negative, graffiti_post_fee_insufficient,
  mempool_graffiti_full,
}

abbrev max_graffiti_on_mempool : ℕ
max_graffiti_on_mempool = 7

module _ (t : Text) where
  unfoldable pub clean_field : ℕ → Meta → ℕ
  unfolding str_or_empty
  clean_field k meta = t.clean (str_or_empty t (get (plain k) meta))

  -- The art id of a post, given or computed; 0 if there is none.
  unfoldable pub named_id : Meta → ℕ
  unfolding clean_field
  named_id meta =
      let sha_hex = clean_field k_sha256 meta in
      let creator = clean_field k_creator meta in
      if eqb (clean_field k_art_id meta) 0
      then (if eqb sha_hex 0 || eqb creator 0 then 0 else t.decorate (t.art_hash sha_hex creator))
      else clean_field k_art_id meta

  -- `cur_sha and cur_mroot and ex_sha == cur_sha and ex_mroot == cur_mroot`
  unfoldable pub is_same_file : ℕ → ℕ → Meta → Bool
  unfolding clean_field
  is_same_file ex_sha ex_mroot meta =
      let cur_sha = clean_field k_sha256 meta in
      let cur_mroot = clean_field k_mroot meta in
      not (eqb cur_sha 0) && not (eqb cur_mroot 0) && eqb ex_sha cur_sha && eqb ex_mroot cur_mroot

  unfoldable pub is_posted : Option Post → Meta → Bool
  unfolding is_same_file
  is_posted none meta = false
  is_posted (some existing) meta =
      is_same_file (t.clean existing.sha256) (t.clean existing.mroot) meta

  module _ (reg : Registry) where
    unfoldable pub check_post_output : Meta → Answer (Unit {0})
    unfolding named_id is_posted int_or
    check_post_output meta = do
      size_val ← or_raise (int_or t (pos 0) (get (plain k_size) meta))
      ensure (ltb_ℤ (pos 0) size_val) graffiti_size_invalid
      ensure (leb_ℤ size_val (pos graffiti_max_size_bytes)) graffiti_size_exceeds_limit
      ensure (eqb (named_id meta) 0 || not (is_posted (get_post (named_id meta) reg) meta))
          graffiti_duplicate_post

    unfoldable check_comment_output : Meta → Answer (Unit {0})
    unfolding int_or
    check_comment_output meta = do
      comment_len ← or_raise (int_or t (pos 0) (get (plain k_comment_len) meta))
      ensure (ltb_ℤ (pos 0) comment_len) graffiti_comment_empty
      ensure (leb_ℤ comment_len (pos comment_max_bytes)) graffiti_comment_too_large
      amount ← or_raise (int_or t (pos 0) (get (plain k_amount) meta))
      ensure (leb_ℤ (pos comment_min_fee) amount) graffiti_comment_fee_too_low
      tip ← or_raise (int_or t (pos 0) (get (plain k_tip) meta))
      ensure (leb_ℤ (pos 0) tip) graffiti_comment_tip_negative

    unfoldable pub check_event_output : Option (Event × Meta) → Answer (Unit {0})
    unfolding check_post_output check_comment_output
    check_event_output none = ensure false graffiti_payload_invalid
    check_event_output (some (post, meta)) = check_post_output meta
    check_event_output (some (comment, meta)) = check_comment_output meta
    check_event_output (some (payout, meta)) = accepted tt

    unfoldable pub check_pushed : Option Bytes → Answer (Unit {0})
    unfolding starts_with check_event_output
    check_pushed none = accepted tt
    check_pushed (some raw) =
        if starts_with t.magic raw
        then (do
          ensure (leb (length raw) max_graffiti_opret) graffiti_opreturn_too_large
          check_event_output (parse_payload t raw))
        else accepted tt

    -- `_validate_graffiti_output` for each output.
    unfoldable pub check_graffiti_outputs : List TxOut → Answer (Unit {0})
    unfolding check_pushed
    check_graffiti_outputs [] = accepted tt
    check_graffiti_outputs (out ∷ outputs) = do
      check_pushed (last_pushdata out.script_pubkey)
      check_graffiti_outputs outputs

  unfoldable pub post_of : Option (Event × Meta) → Option Meta
  post_of (some (post, meta)) = some meta
  post_of (some (comment, meta)) = none
  post_of (some (payout, meta)) = none
  post_of none = none

  unfoldable pub payout_meta_of : Option (Event × Meta) → Option Meta
  payout_meta_of (some (post, meta)) = none
  payout_meta_of (some (comment, meta)) = none
  payout_meta_of (some (payout, meta)) = some meta
  payout_meta_of none = none

  -- The first output of an event, by one of the two readers above.
  unfoldable pub find_meta : (Option (Event × Meta) → Option Meta) → List TxOut → Option Meta
  find_meta read [] = none
  find_meta read (out ∷ outputs) = elim (read (parse_from_script t out.script_pubkey)) [
    | none ↦ find_meta read outputs
    | some meta ↦ some meta
  ]

  unfoldable pub find_payout_meta : List TxOut → Option Meta
  unfolding find_meta payout_meta_of
  find_payout_meta outputs = find_meta payout_meta_of outputs

  -- The posts in the outputs.
  unfoldable pub count_posts : List TxOut → ℕ
  unfolding post_of
  count_posts [] = 0
  count_posts (out ∷ outputs) = elim (post_of (parse_from_script t out.script_pubkey)) [
    | none ↦ count_posts outputs
    | some _ ↦ suc (count_posts outputs)
  ]

  unfoldable pub has_exceeded_mempool_post_limit : List Tx → ℕ → Bool
  unfolding count_posts
  has_exceeded_mempool_post_limit pool max_limit =
      let current_posts = sum_by (λ (existing : Tx). count_posts existing.outputs) pool in
      ltb 0 current_posts && leb max_limit current_posts

  -- An output posts the same file under the art id.
  unfoldable pub posts_same : ℕ → Meta → TxOut → Bool
  unfolding post_of named_id is_same_file clean_field
  posts_same art_id meta out = elim (post_of (parse_from_script t out.script_pubkey)) [
    | none ↦ false
    | some p_meta ↦
        not (eqb (named_id p_meta) 0)
        && eqb (named_id p_meta) art_id
        && is_same_file (clean_field k_sha256 p_meta) (clean_field k_mroot p_meta) meta
  ]

  unfoldable pub is_waiting : ℕ → List Tx → ℕ → Meta → Bool
  unfolding posts_same
  is_waiting txid pool art_id meta =
      any
        (λ (existing : Tx).
          not (eqb existing.txid txid) && any (posts_same art_id meta) existing.outputs)
        pool

  module _ (a : Addresses) (reg : Registry) (pool : List Tx) where
    -- The fee of the pool; an exception of `int` is passed over.
    unfoldable pub check_pool_fee : ℕ → List TxOut → Meta → Answer (Unit {0})
    unfolding int_or
    check_pool_fee art_id outputs meta = elim (int_or t (pos 0) (get (plain k_size) meta)) [
      | none ↦ accepted tt
      | some size ↦
          ensure
            (not (
              ltb (paid_to a.bech32 (a.pool_of art_id) outputs)
                (calc_upload_fee_sats (pos_part size))))
            graffiti_post_fee_insufficient
    ]

    unfoldable pub check_named_post : Tx → Meta → Answer (Unit {0})
    unfolding named_id is_posted is_waiting check_pool_fee
    check_named_post tx meta =
        let art_id = named_id meta in
        if eqb art_id 0 then accepted tt else (do
          ensure (not (is_posted (get_post art_id reg) meta)) graffiti_duplicate_post
          ensure (not (is_waiting tx.txid pool art_id meta)) graffiti_duplicate_post
          check_pool_fee art_id tx.outputs meta)

    -- Only the first post of the transaction is looked at.
    unfoldable pub enforce_mempool_post_limit : Tx → Answer (Unit {0})
    unfolding find_meta check_named_post has_exceeded_mempool_post_limit
    enforce_mempool_post_limit tx = elim (find_meta post_of tx.outputs) [
      | none ↦ accepted tt
      | some meta ↦ do
        check_named_post tx meta
        ensure
            (not (
              ltb 0 max_graffiti_on_mempool
              && has_exceeded_mempool_post_limit pool max_graffiti_on_mempool))
            mempool_graffiti_full
    ]
