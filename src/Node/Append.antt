-- ===== src/Node/Append.antt =====
-- `add_block` of class ChainOperations, src/tsarchain/consensus/chain_ops.py. The cache of hashes, the
-- flags of what is to be written, the writing of the chain and the callback for a new tip are left
-- out; `none` is an exception, after which the source keeps what it has written up to there.
use graffiti_protocol.Base.{
  ℕ, ◌+◌, List, [], ◌∷◌, ◌++◌, Option, none, some, length, last?, eqb, ◌>>=◌, ◌>>◌, guard,
}
use graffiti_protocol.Ledger.{Tx, Block}
use graffiti_protocol.Utxo.{Utxos, Op, update}
use graffiti_protocol.Difficulty.Work.{work_from_bits, compute_chainwork_for_chain}
use graffiti_protocol.Chain.Native.{Native, genesis_lock_ok}
use graffiti_protocol.Mempool.Rules.{Library}
use graffiti_protocol.Node.Prune.{Waiting, prune_mempool_confirmed}

-- A block with its work and the work up to it.
unfoldable pub weighed : ℕ → Block → Block
weighed prev_cw block = record block {
  chainwork = some (prev_cw + work_from_bits block.bits);
  difficulty = work_from_bits block.bits;
}

-- The chain below the new block, and its work: what the last block has, or all is worked out anew.
unfoldable pub work_below : List Block → Block → List Block × ℕ
work_below chain last_block = elim last_block.chainwork [
  | some prev_cw ↦ (chain, prev_cw)
  | none ↦ (let (cw, blocks) = compute_chainwork_for_chain chain in (blocks, cw))
]

module _ (native : Native) where
  -- `_add_genesis_block` on the chain.
  unfoldable pub append_genesis : Block → Option (List Block)
  unfolding weighed
  append_genesis block = do
    guard (eqb block.height 0)
    guard (genesis_lock_ok native block)
    some (weighed 0 block ∷ [])

  -- `_add_subsequent_block` on the chain.
  unfoldable pub append_subsequent : List Block → Block → Block → Option (List Block)
  unfolding weighed work_below
  append_subsequent chain last_block block = do
    guard (eqb block.height (last_block.height + 1))
    guard (eqb block.prev_block_hash (native.hash last_block))
    (let (below, prev_cw) = work_below chain last_block in
        some (below ++ weighed prev_cw block ∷ []))

  unfoldable pub append_block : List Block → Block → Option (List Block)
  unfolding append_genesis append_subsequent
  append_block chain block = elim (last? chain) [
    | none ↦ append_genesis block
    | some last_block ↦ append_subsequent chain last_block block
  ]

-- The state that a new block changes; `total_blocks` is the length of the chain.
pub record NodeData : Type 0 where
  pub chain : List Block
  pub total_blocks : ℕ
  pub waiting : Waiting

module _ (native : Native) (lib : Library) (build_ops : List Tx → ℕ → List Op)
    (native_apply : Utxos → List Op → Utxos) (tip now : ℕ) where
  -- The graffiti events of the block are left out: the mempool is checked against the registry before
  -- them. So are the exceptions of the store.
  unfoldable pub add_block : Block → NodeData → Option NodeData
  unfolding append_block update prune_mempool_confirmed
  add_block block node = do
    chain ← append_block native node.chain block
    (let store = update build_ops native_apply block.transactions block.height node.waiting.store in
        do
          waiting ←
              prune_mempool_confirmed lib tip now block (record node.waiting { store = store })
          some (record { chain = chain; total_blocks = length chain; waiting = waiting }))
