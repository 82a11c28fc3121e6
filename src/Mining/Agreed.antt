-- ===== src/Mining/Agreed.antt =====
-- The posts of a miner's block against the rule of the block's validator, which counts posts by
-- outputs, where the miner counts transactions.
use graffiti_protocol.Base.{
  ℕ, ◌+◌, ◌≤◌, ◌≡◌, ◌≢◌, ◌∙◌, ap, sym, false, refl, arith, inl, inr, List, [], ◌∷◌, Option, none,
  some, length, eqb, ltb, if◌then◌else◌, Bool-cases, Option-cases,
}
use graffiti_protocol.Ledger.{Tx, TxOut, Block}
use graffiti_protocol.Utxo.{Utxos}
use graffiti_protocol.Registry.{Registry, get_post}
use graffiti_protocol.Graffiti.{Text, Meta, Event, post, comment, payout, parse_from_script}
use graffiti_protocol.Chain.Native.{Native}
use graffiti_protocol.Validation.{
  Addresses, passed, Checked-cases, paid_to, post_id, min_fee_of, is_duplicate, Tally, count_post,
  check_post, check_output_post, tally_outputs, tally_txs, is_block_id, check_tally,
  validate_graffiti_posts,
}
use graffiti_protocol.Mempool.Rules.{Answer}
use graffiti_protocol.Mining.Posts.{paid_id, paid_id_of, first_paid, select_graffiti_art_id}
use graffiti_protocol.Mining.Template.{
  Coinbases, coinbase_block_id, coinbase_tx, collect, build_candidate_block,
}
use graffiti_protocol.Mining.Paid.{fees, candidate_parts}
use graffiti_protocol.Mining.Apart.{post_count, collect-post_count}

abbrev pub zero_tally : Tally
zero_tally = record { posts = 0; first_art_id = 0 }

-- The count of some outputs after that of others.
abbrev after : Tally → Tally → Tally
after s u = record {
  posts = s.posts + u.posts;
  first_art_id = if eqb s.first_art_id 0 then u.first_art_id else s.first_art_id;
}

after_zero : (s : Tally) → after s zero_tally ≡ s
after_zero s = ground arith

after-after : (s u w : Tally) → after (after s u) w ≡ after s (after u w)
after-after s u w = ground arith

-- One post, or none if the art id is 0.
abbrev one_post : ℕ → Tally
one_post art_id = record { posts = if eqb art_id 0 then 0 else 1; first_art_id = art_id }

module _ (t : Text) (a : Addresses) (reg : Registry) where
  -- What the validator makes of an output, by what the miner reads in it.
  check_post_lem :
      (outputs : List TxOut) (meta : Meta) (s v : Tally)
      → check_post t a reg outputs meta s ≡ passed v
      → (art_id : ℕ) × (paid_id t a outputs meta ≡ some art_id)
        × (v ≡ after s (one_post art_id))
        × ((s' : Tally) → check_post t a reg outputs meta s' ≡ passed (after s' (one_post art_id)))
  unfolding check_post paid_id count_post
  check_post_lem outputs meta s v h = elim (Bool-cases (eqb (post_id t meta) 0)) [
    | inl unnamed ↦ (0, ground arith, ground arith, λ s'. ground arith)
    | inr named ↦ elim (Bool-cases (is_duplicate t (get_post (post_id t meta) reg) meta)) [
      | inl again ↦ absurd (ground arith)
      | inr new ↦ elim (Option-cases (min_fee_of t meta)) [
        | inl unread ↦ absurd (ground arith)
        | inr (min_fee, read) ↦
            elim (Bool-cases
              (ltb (paid_to a.bech32 (a.pool_of (post_id t meta)) outputs) min_fee)) [
                | inl unpaid ↦ (0, ground arith, ground arith, λ s'. ground arith)
                | inr paid ↦ (post_id t meta, ground arith, ground arith, λ s'. ground arith)
              ]
      ]
    ]
  ]

  output_lem :
      (outputs : List TxOut) (m : Option (Event × Meta)) (s v : Tally)
      → check_output_post t a reg outputs m s ≡ passed v
      → (art_id : ℕ) × (paid_id_of t a outputs m ≡ some art_id)
        × (v ≡ after s (one_post art_id))
        × ((s' : Tally)
            → check_output_post t a reg outputs m s' ≡ passed (after s' (one_post art_id)))
  unfolding check_output_post paid_id_of
  output_lem outputs (some (post, meta)) s v h = check_post_lem outputs meta s v h
  output_lem outputs (some (comment, meta)) s v h = (0, refl, ground arith, λ s'. ground arith)
  output_lem outputs (some (payout, meta)) s v h = (0, refl, ground arith, λ s'. ground arith)
  output_lem outputs none s v h = (0, refl, ground arith, λ s'. ground arith)

  -- An output at a time, from any count.
  outputs_lem :
      (outputs : List TxOut) (out : TxOut) (rest : List TxOut) (s v : Tally)
      → tally_outputs t a reg outputs (out ∷ rest) s ≡ passed v
      → (art_id : ℕ) × (paid_id_of t a outputs (parse_from_script t out.script_pubkey)
          ≡ some art_id)
        × (tally_outputs t a reg outputs rest (after s (one_post art_id)) ≡ passed v)
        × ((s' : Tally)
            → tally_outputs t a reg outputs (out ∷ rest) s'
              ≡ tally_outputs t a reg outputs rest (after s' (one_post art_id)))
  unfolding tally_outputs
  outputs_lem outputs out rest s v h =
      let m = parse_from_script t out.script_pubkey in
      elim (Checked-cases (check_output_post t a reg outputs m s)) [
        | inl (r, refusal) ↦ absurd (ground arith)
        | inr (u, fine) ↦
            let (art_id, read, same, any_count) = output_lem outputs m s u fine in
            (art_id, read, ground arith, λ s'. ground (arith, any_count s'))
      ]

  tally_outputs-after :
      (outputs rest : List TxOut) (s v u : Tally)
      → tally_outputs t a reg outputs rest v ≡ passed u
      → tally_outputs t a reg outputs rest (after s v) ≡ passed (after s u)
  tally_outputs-after outputs [] s v u h =
      let same : v ≡ u = unfold tally_outputs in ground arith in
      unfold tally_outputs in ap (λ x. passed (after s x)) same
  tally_outputs-after outputs (out ∷ rest) s v u h =
      let (art_id, read, run, any_count) = outputs_lem outputs out rest v u h in
      any_count (after s v)
      ∙ ap (tally_outputs t a reg outputs rest) (after-after s v (one_post art_id))
      ∙ tally_outputs-after outputs rest s (after v (one_post art_id)) u run

  -- The count only grows, and the first post stays.
  pub tally_outputs-grows :
      (outputs rest : List TxOut) (v u : Tally)
      → tally_outputs t a reg outputs rest v ≡ passed u
      → (v.posts ≤ u.posts) × (v.first_art_id ≢ 0 → u.first_art_id ≡ v.first_art_id)
  tally_outputs-grows outputs [] v u h =
      let same : v ≡ u = unfold tally_outputs in ground arith in (ground arith, λ q. ground arith)
  tally_outputs-grows outputs (out ∷ rest) v u h =
      let (art_id, read, run, any_count) = outputs_lem outputs out rest v u h in
      let (more, stays) = tally_outputs-grows outputs rest (after v (one_post art_id)) u run in
      (ground (arith, more), λ q. ground (arith, stays))

  -- In outputs with one post at most, the miner finds the validator's.
  first_paid_lem :
      (outputs rest : List TxOut) (u : Tally)
      → tally_outputs t a reg outputs rest zero_tally ≡ passed u
      → u.posts ≤ 1
      → (first_paid t a outputs rest ≡ some u.first_art_id) × (u ≡ one_post u.first_art_id)
  unfolding first_paid
  first_paid_lem outputs [] u h le =
      let same : zero_tally ≡ u = unfold tally_outputs in ground arith in
      (ground arith, ground arith)
  first_paid_lem outputs (out ∷ rest) u h le =
      let (art_id, read, run, any_count) = outputs_lem outputs out rest zero_tally u h in
      elim (Bool-cases (eqb art_id 0)) [
        | inl nothing ↦
            let on : tally_outputs t a reg outputs rest zero_tally ≡ passed u = ground arith in
            let (found, whole) = first_paid_lem outputs rest u on le in (ground arith, whole)
        | inr there ↦
            let (more, stays) =
              tally_outputs-grows outputs rest (after zero_tally (one_post art_id)) u run in
            let kept : u.first_art_id ≡ art_id = ground (arith, stays) in
            (ground arith, ground arith)
      ]

  -- Each transaction passes by itself, with one post at most in its outputs.
  abbrev pub HaveOnePost : List Tx → Type 0
  HaveOnePost [] = Unit {0}
  HaveOnePost (tx ∷ txs) =
      ((u : Tally) × (tally_outputs t a reg tx.outputs tx.outputs zero_tally ≡ passed u)
        × (u.posts ≤ 1))
      × HaveOnePost txs

  tally_txs_lem :
      (txs : List Tx) (s : Tally)
      → HaveOnePost txs
      → (w : Tally) × (tally_txs t a reg txs s ≡ passed (after s w))
        × (w.posts ≡ post_count t a txs)
        × (select_graffiti_art_id t a txs ≡ some w.first_art_id)
  unfolding tally_txs select_graffiti_art_id
  tally_txs_lem [] s all = (zero_tally, ap passed (ground arith), refl, refl)
  tally_txs_lem (tx ∷ txs) s ((u, fine, le), all) =
      let (found, whole) = first_paid_lem tx.outputs tx.outputs u fine le in
      let (w, runs, counts, selects) = tally_txs_lem txs (after s u) all in
      let own : tally_outputs t a reg tx.outputs tx.outputs s ≡ passed (after s u) =
        ap (tally_outputs t a reg tx.outputs tx.outputs) (ground arith)
        ∙ tally_outputs-after tx.outputs tx.outputs s zero_tally u fine in
      (after u w, rw own (runs ∙ ap passed (after-after s u w)), ground arith, ground arith)

  coinbase_block_lem :
      (c : Coinbases) (native : Native) (to_address reward art_id height : ℕ) (cb : Tx)
      → coinbase_tx c native to_address reward art_id height ≡ some cb
      → cb.block_id ≡ some (coinbase_block_id c native art_id height)
  unfolding coinbase_tx
  coinbase_block_lem c native to_address reward art_id height cb h = ground arith

  -- The rule for posts, for a coinbase with the id of the only post.
  posts_agree :
      (cb : Tx) (txs : List Tx) (art_id block_id : ℕ)
      → HaveOnePost txs
      → post_count t a txs ≤ 1
      → select_graffiti_art_id t a txs ≡ some art_id
      → cb.block_id ≡ some block_id
      → (art_id ≢ 0 → t.clean block_id ≡ art_id)
      → validate_graffiti_posts t a reg cb txs ≡ none
  unfolding validate_graffiti_posts check_tally is_block_id
  posts_agree cb txs art_id block_id all le selected named kept =
      let (w, runs, counts, selects) = tally_txs_lem txs zero_tally all in
      let same : w.first_art_id ≡ art_id = ground arith in ground (arith, kept)

  module _ (c : Coinbases) (native : Native) (validate : Tx → Utxos → Answer ℕ) where
    -- If each transaction that a candidate block takes passes the count of posts by itself, with one
    -- paid post at most in its outputs, then the block passes the rule for posts: the id of its
    -- coinbase is that of its only post; if the art id that the miner finds stays itself
    -- when the coinbase strips and cuts it and the validator reads it.
    pub candidate-posts_agree :
        (miner_address reward : ℕ) (chain : List Block) (utxos : Utxos) (pool txs : List Tx)
        (block : Block)
        → collect t a validate pool utxos [] false ≡ some txs
        → HaveOnePost txs
        → ((art_id : ℕ)
            → select_graffiti_art_id t a txs ≡ some art_id
            → art_id ≢ 0
            → t.clean (c.cut (c.strip art_id)) ≡ art_id)
        → build_candidate_block c native t a validate miner_address reward chain utxos pool
          ≡ some block
        → (cb : Tx) × (block.transactions ≡ cb ∷ txs)
          × (validate_graffiti_posts t a reg cb txs ≡ none)
    unfolding coinbase_block_id
    candidate-posts_agree miner_address reward chain utxos pool txs block taken all kept h =
        let (txs', art_id, cb, e, s, p, these, height) =
          candidate_parts c native t a validate miner_address reward chain utxos pool block h in
        let same : txs' ≡ txs = ground arith in
        let count = collect-post_count t a validate pool utxos [] false txs taken in
        let named =
          coinbase_block_lem c native miner_address (reward + fees txs') art_id (length chain) cb
            p in
        let selected : select_graffiti_art_id t a txs ≡ some art_id =
          ap (select_graffiti_art_id t a) (sym same) ∙ s in
        (
          cb,
          these ∙ ap (λ l. cb ∷ l) same,
          posts_agree cb txs art_id (coinbase_block_id c native art_id (length chain)) all
              (ground (arith, count)) selected named (λ q. ground (arith, kept art_id selected)),
        )
