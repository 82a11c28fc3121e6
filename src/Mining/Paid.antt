-- ===== src/Mining/Paid.antt =====
-- The coinbase of a miner's block against the rule of the block's validator.
use graffiti_protocol.Base.{
  ℕ, ◌+◌, ◌-◌, ◌≤◌, ◌<◌, ◌≡◌, ap, refl, arith, min, false, inl, inr, List, [], ◌∷◌, none, some, map,
  length, eqb, ltb, not, guard, >>=-some, sum_by, pos, Option-cases,
}
use graffiti_protocol.Config.{max_supply}
use graffiti_protocol.Ledger.{Tx, Block, output_sum}
use graffiti_protocol.Utxo.{Utxos}
use graffiti_protocol.Graffiti.{Text}
use graffiti_protocol.Rewards.{scheduled_reward, cumulative_supply_until, get_block_reward}
use graffiti_protocol.Chain.Native.{Native}
use graffiti_protocol.Validation.{
  Addresses, passed, with_fees, fees_of, verify_block_fees_and_rewards,
}
use graffiti_protocol.Mempool.Rules.{Answer}
use graffiti_protocol.Mining.Posts.{select_graffiti_art_id}
use graffiti_protocol.Mining.Template.{
  Coinbases, calculate_reward, coinbase_tx, collect, assemble, build_candidate_block,
}

abbrev pub fees : List Tx → ℕ
fees = sum_by (λ (tx : Tx). tx.fee)

abbrev pub fee_list : List Tx → List ℕ
fee_list = map (λ (tx : Tx). tx.fee)

length-fee_list : (txs : List Tx) → length (fee_list txs) ≡ length txs
length-fee_list [] = refl
length-fee_list (tx ∷ txs) = omega (arith, length-fee_list txs)

with_fees-fee_list : (txs : List Tx) → with_fees txs (fee_list txs) ≡ txs
unfolding with_fees
with_fees-fee_list [] = refl
with_fees-fee_list (tx ∷ txs) = ap (λ l. tx ∷ l) (with_fees-fee_list txs)

-- The miner's reward is the validator's, if the node counts no more than is minted.
calculate_reward_lem :
    (total_supply height minted reward : ℕ)
    → cumulative_supply_until (pos height) ≡ some minted
    → total_supply ≤ minted
    → calculate_reward total_supply height ≡ some reward
    → reward ≡ min (scheduled_reward (pos height)) (max_supply - minted)
unfolding calculate_reward get_block_reward
calculate_reward_lem total_supply height minted reward known le h = ground arith

module _ (c : Coinbases) (native : Native) where
  coinbase_tx-pays :
      (to_address reward block_id height : ℕ) (cb : Tx)
      → coinbase_tx c native to_address reward block_id height ≡ some cb
      → (0 < reward) × (output_sum cb.outputs ≡ reward)
  unfolding coinbase_tx
  coinbase_tx-pays to_address reward block_id height cb h =
      let (u, a, h1) = >>=-some (guard (not (eqb to_address 0))) _ cb h in
      let (v, b, h2) = >>=-some (guard (ltb 0 reward)) _ cb h1 in
      let (script, s, h3) = >>=-some (c.p2wpkh_script to_address) _ cb h2 in
      (ground arith, ground arith)

  module _ (t : Text) (a : Addresses) (validate : Tx → Utxos → Answer ℕ) where
    -- The parts of a candidate block.
    pub candidate_parts :
        (miner_address reward : ℕ) (chain : List Block) (utxos : Utxos) (pool : List Tx)
        (block : Block)
        → build_candidate_block c native t a validate miner_address reward chain utxos pool
          ≡ some block
        → (txs : List Tx) × (art_id : ℕ) × (cb : Tx) × (collect t a validate pool utxos [] false
            ≡ some txs)
          × (select_graffiti_art_id t a txs ≡ some art_id)
          × (coinbase_tx c native miner_address (reward + fees txs) art_id (length chain) ≡ some cb)
          × (block.transactions ≡ cb ∷ txs)
          × (block.height ≡ length chain)
    unfolding build_candidate_block assemble
    candidate_parts miner_address reward chain utxos pool block h =
        let (txs, e, h1) = >>=-some (collect t a validate pool utxos [] false) _ block h in
        let (art_id, s, h2) = >>=-some (select_graffiti_art_id t a txs) _ block h1 in
        let (cb, p, h3) =
          >>=-some (coinbase_tx c native miner_address (reward + fees txs) art_id (length chain)) _
            block h2 in
        (txs, art_id, cb, e, s, p, ground arith, ground arith)

    -- If the node counts no more as minted than the schedule has minted below the new block, then the
    -- coinbase of a candidate block is what the validator asks for: with the fees that the transactions
    -- carry as those of the native check, the check of fees and reward passes and changes nothing.
    pub candidate-PaysReward :
        (miner_address total_supply minted reward : ℕ) (chain : List Block) (utxos : Utxos)
        (pool : List Tx) (block : Block)
        → cumulative_supply_until (pos (length chain)) ≡ some minted
        → total_supply ≤ minted
        → calculate_reward total_supply (length chain) ≡ some reward
        → build_candidate_block c native t a validate miner_address reward chain utxos pool
          ≡ some block
        → (cb : Tx) × (txs : List Tx) × (block.transactions ≡ cb ∷ txs)
          × (verify_block_fees_and_rewards block.height cb txs (some (fee_list txs))
              ≡ passed (cb ∷ txs))
    unfolding verify_block_fees_and_rewards fees_of
    candidate-PaysReward miner_address total_supply minted reward chain utxos pool block known le r
          h =
        let (txs, art_id, cb, e, s, p, these, height) =
          candidate_parts miner_address reward chain utxos pool block h in
        let due = calculate_reward_lem total_supply (length chain) minted reward known le r in
        let (_, pays) =
          coinbase_tx-pays miner_address (reward + fees txs) art_id (length chain) cb p in
        (cb, txs, these, ground (arith, length-fee_list txs, with_fees-fee_list txs))

    -- A miner has no block to work on when nothing is due to it: where its reward is 0 and the
    -- transactions it takes pay no fee, it raises an exception; but a coinbase that pays nothing, in
    -- front of the same transactions, is what the validator's check of fees and reward asks for then.
    unpaid_candidate_raises :
        (miner_address total_supply minted : ℕ) (chain : List Block) (utxos : Utxos)
        (pool txs : List Tx) (cb : Tx)
        → cumulative_supply_until (pos (length chain)) ≡ some minted
        → total_supply ≤ minted
        → calculate_reward total_supply (length chain) ≡ some 0
        → collect t a validate pool utxos [] false ≡ some txs
        → fees txs ≡ 0
        → output_sum cb.outputs ≡ 0
        → (build_candidate_block c native t a validate miner_address 0 chain utxos pool ≡ none)
          × (verify_block_fees_and_rewards (length chain) cb txs (some (fee_list txs))
              ≡ passed (cb ∷ txs))
    unfolding verify_block_fees_and_rewards fees_of
    unpaid_candidate_raises miner_address total_supply minted chain utxos pool txs cb known le r e
          free zero_out =
        let due = calculate_reward_lem total_supply (length chain) minted 0 known le r in
        let never =
          elim (Option-cases
              (build_candidate_block c native t a validate miner_address 0 chain utxos pool))
            as (λ _.
              build_candidate_block c native t a validate miner_address 0 chain utxos pool ≡ none) [
                | inl nothing ↦ nothing
                | inr (block, h) ↦
                    let (txs', art_id, cb', e', s, p, these, height) =
                      candidate_parts miner_address 0 chain utxos pool block h in
                    let (paid, _) =
                      coinbase_tx-pays miner_address (0 + fees txs') art_id (length chain) cb' p in
                    let same : txs' ≡ txs = ground arith in
                    let none_due = ap fees same in absurd (omega (arith, paid, none_due, free))
              ] in
        (never, ground (arith, length-fee_list txs, with_fees-fee_list txs))
