-- ===== src/Mining/Miner.antt =====
-- `mine_block` of class MiningManager, src/tsarchain/consensus/mining.py, with the checks before and
-- after the search. The reload of the chain comes before, and the pause after a found block changes
-- nothing; `none` is an exception.
use graffiti_protocol.Base.{
  ℕ, ◌+◌, Bool, false, not, List, [], ◌∷◌, Option, none, some, map, length, last?, eqb, ◌&&◌, ◌||◌,
  if◌then◌else◌, ◌>>=◌,
}
use graffiti_protocol.Ledger.{Tx, Block}
use graffiti_protocol.Utxo.{Utxos, Op}
use graffiti_protocol.Validation.{Outside, passed, refused, validate_block}
use graffiti_protocol.Mempool.Rules.{Library, Answer, validate_transaction}
use graffiti_protocol.Mining.Posts.{fetch_sorted_mempool_txs}
use graffiti_protocol.Mining.Template.{Coinbases, calculate_reward, build_candidate_block}
use graffiti_protocol.Chain.Links.{is_chain_consistent}
use graffiti_protocol.Node.{NodeData, add_block}

-- What mining takes from outside. `search` is the native search for a nonce, `none` when it is
-- stopped; `received_at` is a field of the transaction; `tip` is the height stored with the state.
pub record Tools : Type 0 where
  pub validator : Outside
  pub library : Library
  pub coinbases : Coinbases
  pub build_ops : List Tx → ℕ → List Op
  pub native_apply : Utxos → List Op → Utxos
  pub search : Block → Option ℕ
  pub received_at : Tx → ℕ
  pub tip : ℕ
  pub now : ℕ

module _ (o : Tools) where
  unfoldable pub validate_chain_state : Bool → List Block → Bool
  unfolding is_chain_consistent
  validate_chain_state has_pending_blocks [] = false
  validate_chain_state has_pending_blocks (b ∷ chain) =
      not has_pending_blocks && is_chain_consistent o.validator.native (b ∷ chain)

  unfoldable pub is_stale_block : List Block → Block → Bool
  is_stale_block chain new_block = elim (last? chain) [
    | none ↦ false
    | some latest ↦
        not (eqb (o.validator.native.hash latest) new_block.prev_block_hash)
        || not (eqb new_block.height (latest.height + 1))
  ]

  -- The check of a waiting transaction for the block at the height.
  abbrev mempool_check : NodeData → Tx → Utxos → Answer ℕ
  mempool_check node tx utxos =
      validate_transaction o.library
        (record {
          registry = node.waiting.registry;
          pool = map (λ (e : ℕ × Tx). e.1) node.waiting.pool.pool;
          store = node.waiting.store.utxos;
          tip_height = o.tip;
        })
        tx utxos (some (length node.chain))

  -- The block to work on.
  unfoldable pub candidate : ℕ → ℕ → NodeData → Option Block
  unfolding calculate_reward fetch_sorted_mempool_txs build_candidate_block
  candidate miner_address total_supply node = do
    reward ← calculate_reward total_supply (length node.chain)
    txs_from_mempool ←
        fetch_sorted_mempool_txs o.library.texts o.library.addresses o.received_at
          (map (λ (e : ℕ × Tx). e.1) node.waiting.pool.pool)
    build_candidate_block o.coinbases o.validator.native o.library.texts o.library.addresses
        (mempool_check node) miner_address reward node.chain node.waiting.store.utxos
        txs_from_mempool

  -- The validator writes the fees to the block's transactions. `node` is the node when the nonce is
  -- found, and `later` its chain when the validator takes its lock again.
  unfoldable pub validate_and_add_block :
      NodeData → List Block → Block → Option (Option (Block × NodeData))
  unfolding add_block
  validate_and_add_block node later new_block =
      elim (validate_block o.validator
        (record {
          chain = node.chain;
          utxos = node.waiting.store.utxos;
          registry = node.waiting.registry;
        })
        later new_block) [
          | refused _ ↦ some none
          | passed checked ↦
              let block = record new_block { transactions = checked } in
              (do
                node' ←
                    add_block o.validator.native o.library o.build_ops o.native_apply o.tip o.now
                      block node
                some (some (block, node')))
        ]

  unfoldable pub submit : NodeData → List Block → Block → Option (Option (Block × NodeData))
  unfolding is_stale_block validate_and_add_block
  submit node later found =
      if is_stale_block node.chain found then some none else validate_and_add_block node later found

  -- `some none` is None.
  unfoldable pub mine_block :
      ℕ → ℕ → Bool → NodeData → NodeData → List Block → Option (Option (Block × NodeData))
  unfolding validate_chain_state candidate submit
  mine_block miner_address total_supply has_pending_blocks before node later =
      if validate_chain_state has_pending_blocks before.chain
      then (do
        new_block ← candidate miner_address total_supply before
        elim (o.search new_block) [
          | none ↦ some none
          | some nonce ↦ submit node later (record new_block { nonce = nonce })
        ])
      else some none
