-- ===== src/Mining/Posts.antt =====
-- How the miner finds graffiti posts, and the order in which it takes transactions:
-- `_is_graffiti_post`, `_select_graffiti_art_id` and `_fetch_sorted_mempool_txs` of
-- src/tsarchain/consensus/mining.py. A post's art id is a number, 0 for none; `none` is an exception.
use graffiti_protocol.Base.{
  ℕ, Bool, not, List, [], ◌∷◌, ◌++◌, Option, none, some, eqb, ltb, ◌&&◌, ◌||◌, if◌then◌else◌, ◌>>=◌,
  sort_by,
}
use graffiti_protocol.Ledger.{Tx, TxOut}
use graffiti_protocol.Graffiti.{Text, Meta, Event, post, comment, payout, parse_from_script}
use graffiti_protocol.Validation.{Addresses, paid_to, post_id, min_fee_of}

module _ (t : Text) (a : Addresses) where
  -- The art id of a post that pays its pool.
  unfoldable pub paid_id : List TxOut → Meta → Option ℕ
  unfolding post_id min_fee_of paid_to
  paid_id outputs meta =
      let art_id = post_id t meta in
      if eqb art_id 0 then some 0 else (elim (min_fee_of t meta) [
        | none ↦ none
        | some min_fee ↦
            some (if ltb (paid_to a.bech32 (a.pool_of art_id) outputs) min_fee then 0 else art_id)
      ])

  unfoldable pub paid_id_of : List TxOut → Option (Event × Meta) → Option ℕ
  unfolding paid_id
  paid_id_of outputs (some (post, meta)) = paid_id outputs meta
  paid_id_of outputs (some (comment, meta)) = some 0
  paid_id_of outputs (some (payout, meta)) = some 0
  paid_id_of outputs none = some 0

  -- The loop over the outputs, up to the first paid post.
  unfoldable pub first_paid : List TxOut → List TxOut → Option ℕ
  unfolding paid_id_of
  first_paid outputs [] = some 0
  first_paid outputs (out ∷ rest) = do
    art_id ← paid_id_of outputs (parse_from_script t out.script_pubkey)
    if eqb art_id 0 then first_paid outputs rest else some art_id

  unfoldable pub is_graffiti_post : Tx → Option Bool
  unfolding first_paid
  is_graffiti_post tx = do art_id ← first_paid tx.outputs tx.outputs; some (not (eqb art_id 0))

  unfoldable pub select_graffiti_art_id : List Tx → Option ℕ
  unfolding first_paid
  select_graffiti_art_id [] = some 0
  select_graffiti_art_id (tx ∷ txs) = do
    art_id ← first_paid tx.outputs tx.outputs
    if eqb art_id 0 then select_graffiti_art_id txs else some art_id

  -- The posts, and the others.
  unfoldable pub split_posts : List Tx → Option (List Tx × List Tx)
  unfolding is_graffiti_post
  split_posts [] = some ([], [])
  split_posts (tx ∷ txs) = do
    is_post ← is_graffiti_post tx
    (graff_posts, other_txs) ← split_posts txs
    some (if is_post then (tx ∷ graff_posts, other_txs) else (graff_posts, tx ∷ other_txs))

  -- `received_at` is the field `_received_at`, 0 for None.
  module _ (received_at : Tx → ℕ) where
    abbrev pub earlier : Tx → Tx → Bool
    earlier x y = ltb (received_at x) (received_at y)

    -- The order of `(-fee, received_at)`.
    abbrev pays_better : Tx → Tx → Bool
    pays_better x y = ltb y.fee x.fee || eqb x.fee y.fee && earlier x y

    unfoldable pub fetch_sorted_mempool_txs : List Tx → Option (List Tx)
    unfolding split_posts sort_by
    fetch_sorted_mempool_txs txs_raw = do
      (graff_posts, other_txs) ← split_posts txs_raw
      some (sort_by earlier graff_posts ++ sort_by pays_better other_txs)
