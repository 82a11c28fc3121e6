-- ===== src/Mining/TwoPosts.antt =====
-- A transaction with two posts, which the miner counts as one and the validator as two.
use graffiti_protocol.Base.{
  ℕ, ◌≤◌, ◌<◌, ◌≡◌, ◌≢◌, ◌∙◌, ap, arith, inl, inr, List, [], ◌∷◌, none, some,
}
use graffiti_protocol.Ledger.{Tx, Block}
use graffiti_protocol.Utxo.{Utxos}
use graffiti_protocol.Registry.{Registry}
use graffiti_protocol.Graffiti.{Text}
use graffiti_protocol.Chain.Native.{Native}
use graffiti_protocol.Validation.{
  Addresses, passed, Checked-cases, Tally, tally_outputs, tally_txs, check_tally,
  validate_graffiti_posts,
}
use graffiti_protocol.Mempool.Rules.{Answer, accepted}
use graffiti_protocol.Mining.Template.{Coinbases, build_candidate_block}
use graffiti_protocol.Mining.Paid.{candidate_parts}
use graffiti_protocol.Mining.Apart.{collect_front}
use graffiti_protocol.Mining.Agreed.{zero_tally, tally_outputs-grows}

module _ (t : Text) (a : Addresses) (reg : Registry) where
  -- The tallies of the transactions only grow.
  tally_txs-grows :
      (txs : List Tx) (s w : Tally) → tally_txs t a reg txs s ≡ passed w → s.posts ≤ w.posts
  unfolding tally_txs
  tally_txs-grows [] s w h = ground arith
  tally_txs-grows (tx ∷ txs) s w h =
      elim (Checked-cases (tally_outputs t a reg tx.outputs tx.outputs s)) [
        | inl (r, refusal) ↦ absurd (ground arith)
        | inr (u, fine) ↦
            let (more, _) = tally_outputs-grows t a reg tx.outputs tx.outputs s u fine in
            let rest = tally_txs-grows txs u w (ground arith) in omega (arith, more, rest)
      ]

  -- A block with a transaction in front that has two paid posts is refused, whatever else it has.
  two_posts_refused :
      (cb tx : Tx) (txs : List Tx) (u : Tally)
      → tally_outputs t a reg tx.outputs tx.outputs zero_tally ≡ passed u
      → 1 < u.posts
      → validate_graffiti_posts t a reg cb (tx ∷ txs) ≢ none
  unfolding validate_graffiti_posts check_tally tally_txs
  two_posts_refused cb tx txs u two more = λ h. elim (Checked-cases (tally_txs t a reg txs u)) [
    | inl (r, refusal) ↦ absurd (ground arith)
    | inr (w, fine) ↦ absurd (ground (arith, tally_txs-grows txs u w fine))
  ]

  -- The miner does not see the second post of a transaction: if the first transaction that it tries is
  -- accepted by the mempool's check and has two paid posts in its outputs, then every candidate block
  -- has it in front, and is refused by the validator's rule for posts.
  pub two_posts_mined :
      (c : Coinbases) (native : Native) (validate : Tx → Utxos → Answer ℕ)
      (miner_address reward fee : ℕ) (chain : List Block) (utxos : Utxos) (tx : Tx) (pool : List Tx)
      (u : Tally) (block : Block)
      → validate tx utxos ≡ accepted fee
      → tally_outputs t a reg tx.outputs tx.outputs zero_tally ≡ passed u
      → 1 < u.posts
      → build_candidate_block c native t a validate miner_address reward chain utxos (tx ∷ pool)
        ≡ some block
      → (cb : Tx) × (txs : List Tx) × (block.transactions ≡ cb ∷ record tx { fee = fee } ∷ txs)
        × (validate_graffiti_posts t a reg cb (record tx { fee = fee } ∷ txs) ≢ none)
  two_posts_mined c native validate miner_address reward fee chain utxos tx pool u block fine two
        more h =
      let (txs, art_id, cb, e, s, p, these, height) =
        candidate_parts c native t a validate miner_address reward chain utxos (tx ∷ pool) block
          h in
      let (rest, front) = collect_front t a validate tx pool utxos fee txs fine e in
      (
        cb,
        rest,
        these ∙ ap (λ l. cb ∷ l) front,
        two_posts_refused cb (record tx { fee = fee }) rest u two more,
      )
