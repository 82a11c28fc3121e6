-- ===== src/Validation/Posts.antt =====
-- The graffiti posts of a block: `_validate_graffiti_posts` and `_spk_to_address` of
-- src/tsarchain/consensus/validation.py. A text of the metadata is read by
-- `str(meta.get(k) or "").strip().lower()`.
use graffiti_protocol.Base.{
  ℕ, suc, Bool, false, not, List, [], ◌∷◌, Option, none, some, drop, eqb, ltb, leb, ◌&&◌, ◌||◌,
  if◌then◌else◌, pos, pos_part, sum_by, pair_key,
}
use graffiti_protocol.Ledger.{Tx, TxOut}
use graffiti_protocol.Script.{Bytes, is_p2wpkh, is_p2wsh}
use graffiti_protocol.Registry.{Post, Registry, get_post}
use graffiti_protocol.Graffiti.{
  Text, Meta, Event, post, comment, payout, plain, get, k_art_id, k_sha256, k_creator, k_mroot,
  k_size, truthy, str_of, int_or, calc_upload_fee_sats, parse_from_script,
}
use graffiti_protocol.Validation.Reason.{
  graffiti_duplicate_post, too_many_graffiti_posts, block_id_mismatch_graffiti, Verdict, require,
  ◌&>◌, Checked, passed, refused, ◌>>=◌, unexpected_validation_error,
}

-- Addresses: `bech32` encodes a witness program, and `pool_of` is `derive_pool_address`.
pub record Addresses : Type 0 where
  pub bech32 : Bytes → ℕ
  pub pool_of : ℕ → ℕ

unfoldable pub spk_to_address : (Bytes → ℕ) → Bytes → Option ℕ
spk_to_address bech32 spk =
    if is_p2wpkh spk || is_p2wsh spk then some (bech32 (drop 2 spk)) else none

-- An output's address is the one given.
unfoldable pub pays_to : (Bytes → ℕ) → ℕ → TxOut → Bool
unfolding spk_to_address
pays_to bech32 addr out = elim (spk_to_address bech32 out.script_pubkey) [
  | none ↦ false
  | some a ↦ eqb a addr
]

-- What the outputs pay to an address.
unfoldable pub paid_to : (Bytes → ℕ) → ℕ → List TxOut → ℕ
unfolding pays_to
paid_to bech32 addr outputs =
    sum_by (λ (out : TxOut). if pays_to bech32 addr out then out.amount else 0) outputs

-- `graffiti_posts` and `first_art_id` (0 for None or empty) of the loop.
pub record Tally : Type 0 where
  pub posts : ℕ
  pub first_art_id : ℕ

module _ (t : Text) where
  unfoldable pub text_field : ℕ → Meta → ℕ
  unfolding truthy str_of
  text_field k meta = elim (get (plain k) meta) [
    | none ↦ 0
    | some v ↦ if truthy t (some v) then t.clean (str_of t v) else 0
  ]

  -- The art id of a post, given or computed; 0 if there is none.
  unfoldable pub post_id : Meta → ℕ
  unfolding text_field
  post_id meta =
      let sha = text_field k_sha256 meta in
      let creator = text_field k_creator meta in
      if eqb (text_field k_art_id meta) 0
      then (if eqb sha 0 || eqb creator 0 then 0 else t.decorate (t.art_hash sha creator))
      else text_field k_art_id meta

  -- A post of the same file is known already.
  unfoldable pub is_duplicate : Option Post → Meta → Bool
  unfolding text_field
  is_duplicate none meta = false
  is_duplicate (some existing) meta =
      let cur_sha = text_field k_sha256 meta in
      let cur_mroot = text_field k_mroot meta in
      not (eqb cur_sha 0)
      && not (eqb cur_mroot 0)
      && eqb (t.clean existing.sha256) cur_sha
      && eqb (t.clean existing.mroot) cur_mroot

  -- `int(meta.get("size") or 0)`, and the fee that it asks for
  unfoldable pub min_fee_of : Meta → Option ℕ
  unfolding truthy int_or
  min_fee_of meta =
      let size = get (plain k_size) meta in
      if truthy t size
      then (elim (int_or t (pos 0) size) [
        | none ↦ none
        | some n ↦ some (calc_upload_fee_sats (pos_part n))
      ])
      else some (calc_upload_fee_sats 0)

  unfoldable pub count_post : ℕ → Tally → Tally
  count_post art_id s = record {
    posts = suc s.posts;
    first_art_id = if eqb s.first_art_id 0 then art_id else s.first_art_id;
  }

  module _ (a : Addresses) (reg : Registry) where
    -- A post in an output of a transaction with these outputs.
    unfoldable pub check_post : List TxOut → Meta → Tally → Checked Tally
    unfolding post_id is_duplicate min_fee_of count_post
    check_post outputs meta s =
        let art_id = post_id meta in
        if eqb art_id 0
        then passed s
        else (if is_duplicate (get_post art_id reg) meta
            then refused graffiti_duplicate_post
            else (elim (min_fee_of meta) [
              | none ↦ refused unexpected_validation_error
              | some min_fee ↦
                  if ltb (paid_to a.bech32 (a.pool_of art_id) outputs) min_fee
                  then passed s
                  else passed (count_post art_id s)
            ]))

    unfoldable pub check_output_post : List TxOut → Option (Event × Meta) → Tally → Checked Tally
    unfolding check_post
    check_output_post outputs (some (post, meta)) s = check_post outputs meta s
    check_output_post outputs (some (comment, meta)) s = passed s
    check_output_post outputs (some (payout, meta)) s = passed s
    check_output_post outputs none s = passed s

    unfoldable pub tally_outputs : List TxOut → List TxOut → Tally → Checked Tally
    unfolding check_output_post
    tally_outputs outputs [] s = passed s
    tally_outputs outputs (out ∷ rest) s = do
      s' ← check_output_post outputs (parse_from_script t out.script_pubkey) s
      tally_outputs outputs rest s'

    unfoldable pub tally_txs : List Tx → Tally → Checked Tally
    unfolding tally_outputs
    tally_txs [] s = passed s
    tally_txs (tx ∷ txs) s = do s' ← tally_outputs tx.outputs tx.outputs s; tally_txs txs s'

    -- The coinbase's block id, stripped and lowered, is the art id.
    unfoldable pub is_block_id : Option ℕ → ℕ → Bool
    is_block_id none art_id = false
    is_block_id (some block_id) art_id = eqb (t.clean block_id) art_id

    unfoldable pub check_tally : Option ℕ → Tally → Verdict
    unfolding is_block_id
    check_tally block_id s =
        require (leb s.posts 1) too_many_graffiti_posts
        &> require
            (not (eqb s.posts 1 && not (eqb s.first_art_id 0))
              || is_block_id block_id s.first_art_id)
            block_id_mismatch_graffiti

    unfoldable pub validate_graffiti_posts : Tx → List Tx → Verdict
    unfolding tally_txs check_tally
    validate_graffiti_posts cb txs = elim (tally_txs txs (record { posts = 0; first_art_id = 0 })) [
      | refused r ↦ some r
      | passed s ↦ check_tally cb.block_id s
    ]
