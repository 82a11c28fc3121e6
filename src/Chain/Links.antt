-- ===== src/Chain/Links.antt =====
-- `_is_chain_consistent` of src/tsarchain/consensus/chain_ops.py, the cheap test that a loaded chain
-- has to pass, next to `_validate_complete_chain`.
use graffiti_protocol.Base.{
  ℕ, ◌+◌, ◌≡◌, arith, Bool, true, List, [], ◌∷◌, ◌++◌, some, all, eqb, ◌&&◌, Option-cases, inl, inr,
}
use graffiti_protocol.Ledger.{Block}
use graffiti_protocol.Chain.Native.{Native, pow_ok}
use graffiti_protocol.Chain.Spend.{Coins}
use graffiti_protocol.Chain.Validate.{
  validate_genesis_block, genesis_coins, header_ok, connect_txs, validate_subsequent_blocks,
  connect_chain, validate_complete_chain,
}

module _ (native : Native) where
  open native use {hash}

  -- The loop over the neighbours, both tests for each.
  unfoldable pub links_valid : Block → List Block → Bool
  links_valid prev [] = true
  links_valid prev (cur ∷ rest) =
      eqb cur.height (prev.height + 1)
      && eqb cur.prev_block_hash (hash prev)
      && links_valid cur rest

  unfoldable pub is_chain_consistent : List Block → Bool
  unfolding links_valid
  is_chain_consistent [] = true
  is_chain_consistent (g ∷ rest) = eqb g.height 0 && eqb g.prev_block_hash 0 && links_valid g rest

  header_ok-parts :
      (prefix : List Block) (p b : Block)
      → header_ok native prefix p b ≡ true
      → (b.height ≡ p.height + 1) × (b.prev_block_hash ≡ hash p) × (pow_ok native b ≡ true)
  unfolding header_ok
  header_ok-parts prefix p b h = ground arith

  subsequent-links :
      (prefix : List Block) (p : Block) (rest : List Block) (s s' : Coins × ℕ)
      → validate_subsequent_blocks native prefix p rest s ≡ some s'
      → (links_valid p rest ≡ true) × (all (pow_ok native) rest ≡ true)
  unfolding validate_subsequent_blocks links_valid
  subsequent-links prefix p [] s s' e = ground arith
  subsequent-links prefix p (b ∷ rest) s s' e =
      elim (Option-cases (connect_txs b.height b.transactions s)) [
        | inl refused ↦ absurd (ground arith)
        | inr (t, connected) ↦
            ground
              (arith, header_ok-parts prefix p b, subsequent-links (prefix ++ b ∷ []) b rest t s')
      ]

  genesis-parts :
      (g : Block) (supply : ℕ)
      → validate_genesis_block native g ≡ some supply
      → (g.height ≡ 0) × (g.prev_block_hash ≡ 0) × (pow_ok native g ≡ true)
  unfolding validate_genesis_block
  genesis-parts g supply e = ground arith

  -- An accepted chain starts at height 0 from the zero hash, each further block follows its parent in
  -- height and in hash, and every block meets the target of its own bits.
  pub validate_complete_chain-consistent :
      (chain : List Block)
      → validate_complete_chain native chain ≡ true
      → (is_chain_consistent chain ≡ true) × (all (pow_ok native) chain ≡ true)
  unfolding validate_complete_chain connect_chain is_chain_consistent
  validate_complete_chain-consistent [] e = ground arith
  validate_complete_chain-consistent (g ∷ blocks) e =
      elim (Option-cases (validate_genesis_block native g)) [
        | inl refused ↦ absurd (ground arith)
        | inr (s, ok) ↦
            elim (Option-cases (
              validate_subsequent_blocks native (g ∷ []) g blocks
                (genesis_coins g.transactions, s))) [
                  | inl refused ↦ absurd (ground arith)
                  | inr (t, end) ↦ ground (
                    arith,
                    genesis-parts g s,
                    subsequent-links (g ∷ []) g blocks (genesis_coins g.transactions, s) t,
                  )
                ]
      ]
