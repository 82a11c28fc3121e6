-- ===== src/Chain/Reorg.antt =====
-- Replacing the chain or its tip by a better candidate: `replace_with`, `swap_tip_if_better` and what
-- decides them, of class ChainOperations in src/tsarchain/consensus/chain_ops.py, and
-- `_common_ancestor_height` of src/tsarchain/consensus/difficulty.py.
pub mod Better
use graffiti_protocol.Base.{
  ℕ, ◌+◌, ◌-◌, Bool, true, false, List, [], ◌∷◌, ◌++◌, Option, none, some, length, last?, eqb, ltb,
  leb, if◌then◌else◌, ◌&&◌, not,
}
use graffiti_protocol.Config.{reorg_limit}
use graffiti_protocol.Ledger.{Block}
use graffiti_protocol.Difficulty.Work.{work_from_bits, compute_chainwork_for_chain}
use graffiti_protocol.Chain.Native.{Native}
use graffiti_protocol.Chain.Validate.{validate_complete_chain}

-- The reasons for which a candidate chain is turned down.
pub data Rejection : Type 0 where
  invalid_chain less_chainwork less_height no_tie_break deep_reorg : Rejection

pub data Outcome (A : Type 0) : Type 0 where
  accepted : A → Outcome A
  rejected : Rejection → Outcome A

pub record ChainState : Type 0 where
  pub chain : List Block
  pub total_supply : ℕ
  pub total_blocks : ℕ

module _ (native : Native) where
  open native use {hash}

  -- The height under which the index holds a hash: the last block that has it.
  unfoldable pub index_of : ℕ → ℕ → List Block → Option ℕ
  index_of h i [] = none
  index_of h i (b ∷ chain) = elim (index_of h (i + 1) chain) [
    | some j ↦ some j
    | none ↦ if eqb (hash b) h then some i else none
  ]

  -- `none` is -1. The candidate's blocks are tried from the last one down.
  unfoldable pub common_ancestor_height : List Block → List Block → Option ℕ
  unfolding index_of
  common_ancestor_height ours [] = none
  common_ancestor_height ours (b ∷ theirs) = elim (common_ancestor_height ours theirs) [
    | some j ↦ some j
    | none ↦ index_of (hash b) 0 ours
  ]

  -- `their_hash >= our_hash` on the two tips; an empty chain has no tip to compare.
  unfoldable pub loses_tie : List Block → List Block → Bool
  loses_tie ours theirs = elim (last? theirs) [
    | none ↦ true
    | some t ↦ elim (last? ours) [ none ↦ true | some o ↦ leb (hash o) (hash t) ]
  ]

  -- More than REORG_LIMIT of our blocks lie above the common ancestor.
  unfoldable pub is_deep_reorg : List Block → List Block → Bool
  is_deep_reorg ours theirs = elim (common_ancestor_height ours theirs) [
    | none ↦ false
    | some fork_h ↦ ltb reorg_limit (length ours - 1 - fork_h)
  ]

  -- `_validate_replacement_chain`: the reason to turn the candidate down, if there is one.
  unfoldable pub replacement_rejection : List Block → List Block → Option Rejection
  unfolding loses_tie is_deep_reorg
  replacement_rejection ours theirs =
      let their_cw = (compute_chainwork_for_chain theirs).0 in
      let our_cw = (compute_chainwork_for_chain ours).0 in
      let depth = if is_deep_reorg ours theirs then some deep_reorg else none in
      elim (validate_complete_chain native theirs) [
        | false ↦ some invalid_chain
        | true ↦
            if ltb their_cw our_cw
            then some less_chainwork
            else (if eqb their_cw our_cw
                then (if ltb (length theirs) (length ours)
                    then some less_height
                    else (if eqb (length theirs) (length ours)
                        then (if loses_tie ours theirs then some no_tie_break else depth)
                        else depth))
                else depth)
      ]

  -- `replace_with`: the chain, the counters and the blocks' running chainwork.
  unfoldable pub replace_with : ChainState → List Block → ℕ → Outcome ChainState
  unfolding replacement_rejection
  replace_with s theirs their_supply = elim (replacement_rejection s.chain theirs) [
    | some why ↦ rejected why
    | none ↦
        let blocks = (compute_chainwork_for_chain theirs).1 in
        accepted
          (record { chain = blocks; total_supply = their_supply; total_blocks = length blocks })
  ]

-- `chain[:-1]`
abbrev pub init_of : List Block → List Block
init_of [] = []
init_of (b ∷ []) = []
init_of (b ∷ c ∷ chain) = b ∷ init_of (c ∷ chain)

module _ (native : Native) where
  open native use {hash}

  -- The tests that compare the candidate with the chain, `current_tip` and `parent` being its ends.
  unfoldable pub beats_tip : List Block → Block → Block → Bool
  beats_tip chain current_tip block =
      let candidate = init_of chain ++ block ∷ [] in
      let current_cw = (compute_chainwork_for_chain chain).0 in
      let candidate_cw = (compute_chainwork_for_chain candidate).0 in
      validate_complete_chain native candidate
      && not (ltb candidate_cw current_cw)
      && not (eqb candidate_cw current_cw && leb (hash current_tip) (hash block))

  -- `_is_valid_tip_candidate`
  unfoldable pub is_valid_tip_candidate : List Block → Block → Bool
  unfolding beats_tip
  is_valid_tip_candidate chain block = elim (last? (init_of chain)) [
    | none ↦ false
    | some parent ↦ elim (last? chain) [
      | none ↦ false
      | some current_tip ↦
          eqb block.prev_block_hash (hash parent)
          && eqb block.height (parent.height + 1)
          && beats_tip chain current_tip block
    ]
  ]

  -- `swap_tip_if_better` with `_commit_tip_swap`: the new chain, whose new tip carries its work.
  unfoldable pub swap_tip_if_better : ChainState → Block → Option ChainState
  unfolding is_valid_tip_candidate
  swap_tip_if_better s block =
      let base = compute_chainwork_for_chain (init_of s.chain) in
      let work = work_from_bits block.bits in
      let tip = record block { difficulty = work; chainwork = some (base.0 + work) } in
      let chain' = base.1 ++ tip ∷ [] in
      if is_valid_tip_candidate s.chain block
      then some (record s { chain = chain'; total_blocks = length chain' })
      else none
