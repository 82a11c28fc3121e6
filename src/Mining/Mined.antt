-- ===== src/Mining/Mined.antt =====
-- What `mine_block` leaves behind when it returns a block.
use graffiti_protocol.Base.{
  ℕ, ◌≡◌, sym, arith, inl, inr, Bool, true, false, List, [], ◌∷◌, ◌++◌, Option, none, some, last?,
  Bool-cases, Option-cases, ◌>>=◌, >>=-some,
}
use graffiti_protocol.Ledger.{Tx, Block}
use graffiti_protocol.Validation.{NodeState, Checked-cases, passed, validate_block}
use graffiti_protocol.Validation.Accepted.{IsPlaced, validate_block-IsPlaced}
use graffiti_protocol.Chain.Links.{is_chain_consistent}
use graffiti_protocol.Node.{NodeData, weighed, add_block}
use graffiti_protocol.Node.Extends.{IsWeighed, Follows, work_of, add_block-IsWeighed}
use graffiti_protocol.Mining.Miner.{
  Tools, validate_chain_state, candidate, is_stale_block, validate_and_add_block, submit,
  mine_block,
}

module _ (o : Tools) where
  -- What the validator reads of the node.
  abbrev seen_by_validator : NodeData → NodeState
  seen_by_validator node = record {
    chain = node.chain;
    utxos = node.waiting.store.utxos;
    registry = node.waiting.registry;
  }

  -- A found block that the validator accepts is on top of the chain.
  abbrev pub IsAppended : NodeData → List Block → Block → Block → NodeData → Type 0
  IsAppended node later found block node' =
      (checked : List Tx) × (validate_block o.validator (seen_by_validator node) later found
        ≡ passed checked)
      × (block ≡ record found { transactions = checked })
      × IsPlaced o.validator.native node.chain found
      × Follows o.validator.native (last? node.chain) block
      × (node'.chain ≡ node.chain ++ weighed (work_of node.chain) block ∷ [])
      × IsWeighed node'.chain

  submit_lem :
      (node : NodeData) (later : List Block) (found block : Block) (node' : NodeData)
      → IsWeighed node.chain
      → submit o node later found ≡ some (some (block, node'))
      → IsAppended node later found block node'
  unfolding submit validate_and_add_block
  submit_lem node later found block node' w h =
      elim (Bool-cases (is_stale_block o node.chain found)) [
        | inl stale ↦ absurd (ground arith)
        | inr current ↦
            elim (Checked-cases (validate_block o.validator (seen_by_validator node) later found)) [
              | inl (r, refusal) ↦ absurd (ground arith)
              | inr (checked, fine) ↦
                  let b = record found { transactions = checked } in
                  let run =
                    add_block o.validator.native o.library o.build_ops o.native_apply o.tip o.now in
                  let give : NodeData → Option (Option (Block × NodeData)) =
                    λ (n : NodeData). some (some (b, n)) in
                  let taken : (run b node >>= give) ≡ some (some (block, node')) = ground arith in
                  let (node'', added, same) =
                    >>=-some (run b node) give (some (block, node')) taken in
                  let same_block : b ≡ block = ground arith in
                  let same_node : node'' ≡ node' = ground arith in
                  let (placed, _, _, _) =
                    validate_block-IsPlaced o.validator (seen_by_validator node) later found checked
                      fine in
                  let added' : run block node ≡ some node' = ground arith in
                  let (follows, top, weighed_again, _) =
                    add_block-IsWeighed o.validator.native o.library o.build_ops o.native_apply
                      o.tip o.now block node node' w added' in
                  (checked, fine, sym same_block, placed, follows, top, weighed_again)
            ]
      ]

  fit_lem :
      (pending : Bool) (chain : List Block)
      → validate_chain_state o pending chain ≡ true
      → (pending ≡ false) × (is_chain_consistent o.validator.native chain ≡ true)
  unfolding validate_chain_state
  fit_lem pending [] q = cc
  fit_lem pending (b ∷ chain) q = ground arith

  -- A block that `mine_block` returns is the candidate block, made from a node with a consistent chain
  -- and no pending blocks, under the nonce that was found; it has passed `validate_block` on the node
  -- as it was when the nonce was found, so it has its place on that chain; and it has been put on top
  -- of that chain, if each block there says what the work up to it is, and then so does each block of
  -- the new chain.
  pub mine_block-IsAppended :
      (miner_address total_supply : ℕ) (has_pending_blocks : Bool) (before node : NodeData)
      (later : List Block) (block : Block) (node' : NodeData)
      → IsWeighed node.chain
      → mine_block o miner_address total_supply has_pending_blocks before node later
        ≡ some (some (block, node'))
      → (has_pending_blocks ≡ false)
        × (is_chain_consistent o.validator.native before.chain ≡ true)
        × ((new_block : Block) × (nonce : ℕ) × (candidate o miner_address total_supply before
              ≡ some new_block)
            × (o.search new_block ≡ some nonce)
            × IsAppended node later (record new_block { nonce = nonce }) block node')
  unfolding mine_block
  mine_block-IsAppended miner_address total_supply has_pending_blocks before node later block node'
        w h =
      elim (Bool-cases (validate_chain_state o has_pending_blocks before.chain)) [
        | inr unfit ↦ absurd (ground arith)
        | inl fit ↦
            let (none_pending, consistent) = fit_lem has_pending_blocks before.chain fit in
            let (new_block, made, h1) =
              >>=-some (candidate o miner_address total_supply before)
                (λ new_block.
                  elim (o.search new_block) as (λ _. Option (Option (Block × NodeData))) [
                    | none ↦ some none
                    | some nonce ↦ submit o node later (record new_block { nonce = nonce })
                  ])
                (some (block, node')) (ground arith) in
            elim (Option-cases (o.search new_block)) [
              | inl stopped ↦ absurd (ground arith)
              | inr (nonce, found) ↦ (
                none_pending,
                consistent,
                (
                  new_block,
                  nonce,
                  made,
                  found,
                  submit_lem node later (record new_block { nonce = nonce }) block node' w
                      (ground arith),
                ),
              )
            ]
      ]
