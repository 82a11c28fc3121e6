-- ===== src/Chain/Supply.antt =====
-- The output set and the minted supply of `_validate_complete_chain`, of
-- src/tsarchain/consensus/chain_ops.py.
mod Value
mod Txs
use graffiti_protocol.Base.{
  ℕ, ◌+◌, ◌-◌, ◌≤◌, ◌≡◌, arith, Bool, true, false, List, [], ◌∷◌, ◌++◌, none, some, min, pos,
  length, Option-cases, Bool-cases, inl, inr, eqb, ◌∙◌, refl, if◌then◌else◌,
}
use graffiti_protocol.Config.{max_supply}
use graffiti_protocol.Ledger.{Tx, Block}
use graffiti_protocol.Rewards.{scheduled_reward}
use graffiti_protocol.Rewards.Sums.{scheduled_sum, scheduled_sum_next, scheduled_sum_zero}
use graffiti_protocol.Chain.Native.{Native}
use graffiti_protocol.Chain.Spend.{Coins, coins_value}
use graffiti_protocol.Chain.Validate.{
  validate_genesis_block, genesis_supply, genesis_coins, header_ok, connect_txs,
  validate_subsequent_blocks, connect_chain,
}
use Value.{coins_value-genesis_outputs}
use Txs.{connect_txs-value}

-- The set is worth no more than the supply, and the supply is the capped schedule up to height `n`.
record IsBacked (n : ℕ) (coins : Coins) (supply : ℕ) : Type 0 where
  backed : coins_value coins ≤ supply
  minted : supply ≡ min (scheduled_sum 0 n) max_supply

connect_txs-IsBacked :
    (n : ℕ) (b : Block) (d : Coins) (supply : ℕ) (d' : Coins) (supply' : ℕ)
    → b.height ≡ n
    → connect_txs b.height b.transactions (d, supply) ≡ some (d', supply')
    → IsBacked n d supply
    → IsBacked (n + 1) d' supply'
connect_txs-IsBacked n b d supply d' supply' at e h =
    let (v, s) = connect_txs-value b.height b.transactions d supply d' supply' e h.backed in
    record { backed = v; minted = ground (arith, scheduled_sum_next n) }

genesis_supply-coins :
    (txs : List Tx) (reward supply : ℕ)
    → genesis_supply txs reward ≡ some supply
    → (coins_value (genesis_coins txs) ≤ supply) × (supply ≡ reward)
unfolding genesis_supply genesis_coins
genesis_supply-coins [] reward supply e = ground arith
genesis_supply-coins (cb ∷ _) reward supply e =
    ground (arith, coins_value-genesis_outputs cb.txid 0 cb.outputs [])

module _ (native : Native) where
  header_ok-height :
      (prefix : List Block) (p b : Block)
      → header_ok native prefix p b ≡ true
      → b.height ≡ p.height + 1
  unfolding header_ok
  header_ok-height prefix p b h = ground arith

  genesis-IsBacked :
      (g : Block) (supply : ℕ)
      → validate_genesis_block native g ≡ some supply
      → (g.height ≡ 0) × IsBacked 1 (genesis_coins g.transactions) supply
  unfolding validate_genesis_block
  genesis-IsBacked g supply e =
      let reward = min (scheduled_reward (pos 0)) (max_supply - 0) in
      (
        ground arith,
        record {
          backed = ground (arith, genesis_supply-coins g.transactions reward supply);
          minted = ground (
            arith,
            genesis_supply-coins g.transactions reward supply,
            scheduled_sum_next 0,
            scheduled_sum_zero 0,
          );
        },
      )

  validate_subsequent_blocks-IsBacked :
      (prefix : List Block) (p : Block) (rest : List Block) (n : ℕ) (d : Coins) (supply : ℕ)
      (d' : Coins) (supply' : ℕ)
      → p.height + 1 ≡ n
      → validate_subsequent_blocks native prefix p rest (d, supply) ≡ some (d', supply')
      → IsBacked n d supply
      → IsBacked (n + length rest) d' supply'
  unfolding validate_subsequent_blocks
  validate_subsequent_blocks-IsBacked prefix p [] n d supply d' supply' at e h = ground (arith)
  validate_subsequent_blocks-IsBacked prefix p (b ∷ rest) n d supply d' supply' at e h =
      elim (Option-cases (connect_txs b.height b.transactions (d, supply))) [
        | inl refused ↦ absurd (ground arith)
        | inr ((d₁, supply₁), connected) ↦ ground (
          arith,
          header_ok-height prefix p b,
          connect_txs-IsBacked n b d supply d₁ supply₁,
          validate_subsequent_blocks-IsBacked (prefix ++ b ∷ []) b rest (n + 1) d₁ supply₁ d'
              supply',
        )
      ]

  -- A chain that the rules accept ends with an output set worth at most the minted supply, which
  -- is what the subsidy schedule allows for its length, and never above the maximum supply.
  pub connect_chain-backed :
      (chain : List Block) (coins : Coins) (supply : ℕ)
      → connect_chain native chain ≡ some (coins, supply)
      → (coins_value coins ≤ supply)
        × (supply ≡ min (scheduled_sum 0 (length chain)) max_supply)
        × (supply ≤ max_supply)
  unfolding connect_chain
  connect_chain-backed [] coins supply e = ground arith
  connect_chain-backed (g ∷ blocks) coins supply e =
      elim (Option-cases (validate_genesis_block native g)) [
        | inl refused ↦ absurd (ground arith)
        | inr (s, ok) ↦
            let (first, start) = genesis-IsBacked g s ok in
            let end =
              validate_subsequent_blocks-IsBacked (g ∷ []) g blocks 1 (genesis_coins g.transactions)
                s coins supply (omega arith) (ground arith) start in
            ground (arith)
      ]
