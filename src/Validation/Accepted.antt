-- ===== src/Validation/Accepted.antt =====
-- What is so of a block that `validate_block` accepts.
use graffiti_protocol.Base.{
  ℕ, ◌+◌, ◌≤◌, ◌<◌, ◌≡◌, ◌≢◌, ◌⊎◌, refl, arith, inl, inr, Bool, true, false, not, List, [], ◌∷◌,
  Option, none, some, length, last?, any, ltb, if◌then◌else◌, List-cases, nat_key, member,
}
use graffiti_protocol.Config.{future_drift, target_block_time, mtp_windows}
use graffiti_protocol.Ledger.{Tx, Block}
use graffiti_protocol.Difficulty.{median_time_past_of, calculate_expected_bits}
use graffiti_protocol.Chain.Native.{Native, pow_ok, merkle_ok}
use graffiti_protocol.Validation.Reason.{
  Reason, Verdict, require, overwrite, ◌&>◌, Checked, passed, refused, ◌>>=◌, ◌>>◌, check,
}
use graffiti_protocol.Validation.Context.{
  compute_txids_for_block, unique_from, ensure_unique_txids, check_place, check_parent_time,
  validate_difficulty, validate_chain_context, check_sigops_budget,
}
use graffiti_protocol.Validation.Guardrails.{validate_tx_guardrails}
use graffiti_protocol.Validation.Amounts.{validate_transactions_payload}
use graffiti_protocol.Validation.Block.{
  Outside, NodeState, check_alone, validate_graffiti_rules, validate_transactions, same_token,
  validate_block_txs, validate_block,
}

-- A chain of checks passes only if each does.
pub &>-none : (v w : Verdict) → (v &> w) ≡ none → (v ≡ none) × (w ≡ none)
&>-none none w h = (refl, h)
&>-none (some r) w h = ground arith

require-none : (b : Bool) (r : Reason) → require b r ≡ none → b ≡ true
require-none b r h = ground arith

overwrite-none : (r : Reason) (v : Verdict) → overwrite r v ≡ none → v ≡ none
overwrite-none r none h = refl
overwrite-none r (some s) h = ground arith

pub check-passed :
    {B : Type 0} (v : Verdict) (k : Checked B) (b : B)
    → (check v >> k) ≡ passed b
    → (v ≡ none) × (k ≡ passed b)
check-passed none k b h = (refl, h)
check-passed (some r) k b h = absurd (ground arith)

pub bind-passed :
    {A : Type 0} {B : Type 0} (m : Checked A) (k : A → Checked B) (b : B)
    → (m >>= k) ≡ passed b
    → (a : A) × (m ≡ passed a) × (k a ≡ passed b)
bind-passed (passed a) k b h = (a, refl, h)
bind-passed (refused r) k b h = absurd (ground arith)

-- No two transactions have the same id, and none has one of those given.
abbrev pub HasFreshIds : List ℕ → List Tx → Type 0
HasFreshIds seen [] = Unit {0}
HasFreshIds seen (tx ∷ txs) = (member tx.txid seen ≡ false) × HasFreshIds (tx.txid ∷ seen) txs

unique_from-HasFreshIds :
    (seen : List ℕ) (txs : List Tx) → unique_from seen txs ≡ none → HasFreshIds seen txs
unfolding unique_from
unique_from-HasFreshIds seen [] h = tt
unique_from-HasFreshIds seen (tx ∷ txs) h =
    (ground arith, unique_from-HasFreshIds (tx.txid ∷ seen) txs (ground arith))

-- The block goes on top of the tip, which is at most the target time younger; without a tip it is the
-- first block.
abbrev FollowsTip : Native → Option Block → ℕ → Block → Type 0
FollowsTip native none height block = (block.height ≡ 0) × (block.prev_block_hash ≡ 0)
FollowsTip native (some tip) height block =
    (block.height ≡ height)
    × (block.prev_block_hash ≡ native.hash tip)
    × (tip.timestamp ≤ block.timestamp + target_block_time)

check_place-FollowsTip :
    (native : Native) (tip : Option Block) (height : ℕ) (block : Block)
    → check_place native tip height block ≡ none
    → check_parent_time tip block ≡ none
    → FollowsTip native tip height block
unfolding check_place check_parent_time
check_place-FollowsTip native none height block p q = (ground arith, ground arith)
check_place-FollowsTip native (some tip) height block p q =
    (ground arith, ground arith, ground arith)

-- What the header's checks leave of a block.
abbrev pub IsPlaced : Native → List Block → Block → Type 0
IsPlaced native chain block =
    FollowsTip native (last? chain) (length chain) block
    × (median_time_past_of mtp_windows chain ≤ block.timestamp)
    × (block.timestamp ≤ native.now + future_drift)
    × ((block.height ≡ 0) ⊎ (block.bits ≡ calculate_expected_bits chain block.height))
    × (pow_ok native block ≡ true)
    × (merkle_ok native block ≡ true)

validate_difficulty-bits :
    (chain : List Block) (block : Block)
    → validate_difficulty chain block ≡ true
    → (block.height ≡ 0) ⊎ (block.bits ≡ calculate_expected_bits chain block.height)
unfolding validate_difficulty
validate_difficulty-bits chain block h = ground arith

validate_chain_context-placed :
    (native : Native) (chain : List Block) (block : Block)
    → validate_chain_context native chain block ≡ none
    → FollowsTip native (last? chain) (length chain) block
      × (median_time_past_of mtp_windows chain ≤ block.timestamp)
      × (block.timestamp ≤ native.now + future_drift)
      × ((block.height ≡ 0) ⊎ (block.bits ≡ calculate_expected_bits chain block.height))
unfolding validate_chain_context
validate_chain_context-placed native chain block h =
    let (a, h1) = &>-none (check_place native (last? chain) (length chain) block) _ h in
    let (b, h2) =
      &>-none (require (not (ltb block.timestamp (median_time_past_of mtp_windows chain))) _) _
        h1 in
    let (c, h3) =
      &>-none (require (not (ltb (native.now + future_drift) block.timestamp)) _) _ h2 in
    let (d, e) = &>-none (check_parent_time (last? chain) block) _ h3 in
    (
      check_place-FollowsTip native (last? chain) (length chain) block a d,
      ground arith,
      ground arith,
      validate_difficulty-bits chain block (require-none _ _ e),
    )

module _ (o : Outside) where
  alone_lem :
      (block : Block)
      → check_alone o block ≡ none
      → (pow_ok o.native block ≡ true)
        × (merkle_ok o.native block ≡ true)
        × HasFreshIds [] block.transactions
  unfolding check_alone ensure_unique_txids
  alone_lem block h =
      let (a, h1) = &>-none (require (pow_ok o.native block) _) _ h in
      let (b, h2) = &>-none (compute_txids_for_block o.native block.transactions) _ h1 in
      let (c, h3) = &>-none (require (merkle_ok o.native block) _) _ h2 in
      let (d, e) = &>-none (overwrite _ (unique_from [] block.transactions)) _ h3 in
      (
        require-none _ _ a,
        require-none _ _ c,
        unique_from-HasFreshIds [] block.transactions (overwrite-none _ _ d),
      )

  -- The parts of an accepted validation.
  stages :
      (before : NodeState) (later : List Block) (block : Block) (cb : Tx) (txs checked : List Tx)
      → validate_block_txs o before later block cb txs ≡ passed checked
      → (check_alone o block ≡ none)
        × (validate_chain_context o.native before.chain block ≡ none)
        × (check_sigops_budget o.count_sigops before.utxos block.transactions ≡ none)
        × ((if ltb 0 block.height
              then validate_transactions o before block.height cb txs
              else passed (cb ∷ txs))
            ≡ passed checked)
        × (same_token o before.chain later ≡ true)
  unfolding validate_block_txs
  stages before later block cb txs checked h =
      let (a, h1) = check-passed (check_alone o block) _ checked h in
      let (b, h2) =
        check-passed (overwrite _ (validate_chain_context o.native before.chain block)) _ checked
          h1 in
      let (c, h3) =
        check-passed
          (overwrite _ (check_sigops_budget o.count_sigops before.utxos block.transactions)) _
          checked h2 in
      let (found, d, h4) =
        bind-passed
          (if ltb 0 block.height
            then validate_transactions o before block.height cb txs
            else passed (cb ∷ txs))
          _ checked h3 in
      let (e, h5) =
        check-passed (require (same_token o before.chain later) _) (passed found) checked h4 in
      (a, overwrite-none _ _ b, overwrite-none _ _ c, ground arith, require-none _ _ e)

  -- The parts of `_validate_transactions`, with the snapshot that the native check is given.
  pub tx_stages :
      (node : NodeState) (height : ℕ) (cb : Tx) (txs checked : List Tx)
      → validate_transactions o node height cb txs ≡ passed checked
      → (cb.is_coinbase ≡ true)
        × (any (λ t. t.is_coinbase) txs ≡ false)
        × (validate_graffiti_rules o node.registry cb txs ≡ passed tt)
        × (validate_transactions_payload o.native_validate node.utxos height cb txs
            ≡ passed checked)
  unfolding validate_transactions
  tx_stages node height cb txs checked h =
      let (a, h1) = check-passed (require cb.is_coinbase _) _ checked h in
      let (b, h2) = check-passed (require (not (any (λ t. t.is_coinbase) txs)) _) _ checked h1 in
      let (c, h3) = check-passed (validate_tx_guardrails o.texts o.size (cb ∷ txs)) _ checked h2 in
      let (u, d, h4) = bind-passed (validate_graffiti_rules o node.registry cb txs) _ checked h3 in
      (require-none _ _ a, ground arith, d, h4)

  -- A block that is accepted has transactions, follows the tip that the node had when its lock was
  -- taken first (and has the same height and hash when it is taken again), keeps the bounds on its
  -- time, above height 0 has the bits that the chain asks for, has enough work and its Merkle root, and no two of its
  -- transactions have the same id.
  pub validate_block-IsPlaced :
      (before : NodeState) (later : List Block) (block : Block) (checked : List Tx)
      → validate_block o before later block ≡ passed checked
      → IsPlaced o.native before.chain block
        × HasFreshIds [] block.transactions
        × (block.transactions ≢ [])
        × (same_token o before.chain later ≡ true)
  unfolding validate_block
  validate_block-IsPlaced before later block checked h = elim (List-cases block.transactions) [
    | inl none_there ↦ absurd (ground arith)
    | inr (cb, txs, these) ↦
        let run : validate_block_txs o before later block cb txs ≡ passed checked = ground arith in
        let (a, b, c, d, e) = stages before later block cb txs checked run in
        let (work, root, ids) = alone_lem block a in
        let (place, old, new, bits) = validate_chain_context-placed o.native before.chain block b in
        ((place, old, new, bits, work, root), ids, λ q. ground arith, e)
  ]

  pub accepted_txs :
      (before : NodeState) (later : List Block) (block : Block) (checked : List Tx)
      → 0 < block.height
      → validate_block o before later block ≡ passed checked
      → (cb : Tx) × (txs : List Tx) × (block.transactions ≡ cb ∷ txs)
        × (check_sigops_budget o.count_sigops before.utxos (cb ∷ txs) ≡ none)
        × (validate_transactions o before block.height cb txs ≡ passed checked)
  unfolding validate_block
  accepted_txs before later block checked p h = elim (List-cases block.transactions) [
    | inl none_there ↦ absurd (ground arith)
    | inr (cb, txs, these) ↦
        let run : validate_block_txs o before later block cb txs ≡ passed checked = ground arith in
        let (a, b, c, d, e) = stages before later block cb txs checked run in
        (cb, txs, these, rw these at c, ground arith)
  ]
