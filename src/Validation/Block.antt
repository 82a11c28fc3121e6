-- ===== src/Validation/Block.antt =====
-- `validate_block` of class BlockValidator, src/tsarchain/consensus/validation.py. The warm-up of the
-- proof of work changes no verdict and is left out, and so is the exception that a field of a type
-- other than the one declared would raise.
use graffiti_protocol.Base.{
  ℕ, Bool, true, false, not, List, [], ◌∷◌, Option, none, some, length, last?, any, eqb, ltb, ◌&&◌,
  if◌then◌else◌,
}
use graffiti_protocol.Ledger.{Tx, Block}
use graffiti_protocol.Script.{Bytes}
use graffiti_protocol.Registry.{Registry}
use graffiti_protocol.Utxo.{Utxos}
use graffiti_protocol.Graffiti.{Text}
use graffiti_protocol.Chain.Native.{Native, pow_ok, merkle_ok}
use graffiti_protocol.Validation.Reason.{
  block_missing_fields, pow_invalid, merkle_mismatch, duplicate_or_missing_txid,
  block_limits_exceeded, chain_context_invalid, sigops_limit_exceeded, missing_coinbase,
  duplicate_coinbase, chain_state_changed_during_validation, Verdict, require, overwrite, ◌&>◌,
  Checked, passed, refused, ◌>>=◌, ◌>>◌, check,
}
use graffiti_protocol.Validation.Context.{
  compute_txids_for_block, ensure_unique_txids, check_block_limits, validate_chain_context,
  check_sigops_budget,
}
use graffiti_protocol.Validation.Guardrails.{validate_tx_guardrails}
use graffiti_protocol.Validation.Posts.{Addresses, validate_graffiti_posts}
use graffiti_protocol.Validation.Payouts.{validate_graffiti_payouts}
use graffiti_protocol.Validation.Amounts.{NativeAnswer, validate_transactions_payload}

-- What the validator uses from outside the repository.
pub record Outside : Type 0 where
  pub native : Native
  pub texts : Text
  pub addresses : Addresses
  pub size : Bool → Tx → ℕ
  pub count_sigops : Bytes → ℕ
  pub native_validate : List Tx → Utxos → ℕ → NativeAnswer

-- What it reads of the node.
pub record NodeState : Type 0 where
  pub chain : List Block
  pub utxos : Utxos
  pub registry : Registry

module _ (o : Outside) where
  -- The checks of a block by itself.
  unfoldable pub check_alone : Block → Verdict
  unfolding compute_txids_for_block ensure_unique_txids check_block_limits
  check_alone block =
      require (pow_ok o.native block) pow_invalid
      &> compute_txids_for_block o.native block.transactions
      &> require (merkle_ok o.native block) merkle_mismatch
      &> overwrite duplicate_or_missing_txid (ensure_unique_txids block.transactions)
      &> overwrite block_limits_exceeded (check_block_limits o.size block.transactions)

  unfoldable pub validate_graffiti_rules : Registry → Tx → List Tx → Checked (Unit {0})
  unfolding validate_graffiti_posts validate_graffiti_payouts
  validate_graffiti_rules reg cb txs = do
    check (validate_graffiti_posts o.texts o.addresses reg cb txs)
    validate_graffiti_payouts o.texts o.addresses.bech32 reg txs

  -- The transactions with their fees.
  unfoldable pub validate_transactions : NodeState → ℕ → Tx → List Tx → Checked (List Tx)
  unfolding validate_tx_guardrails validate_graffiti_rules validate_transactions_payload
  validate_transactions node height cb txs = do
    check (require cb.is_coinbase missing_coinbase)
    check (require (not (any (λ t. t.is_coinbase) txs)) duplicate_coinbase)
    check (validate_tx_guardrails o.texts o.size (cb ∷ txs))
    validate_graffiti_rules node.registry cb txs
    validate_transactions_payload o.native_validate node.utxos height cb txs

  -- `_chain_state_token_locked` of both is the same.
  unfoldable pub same_hash : Option Block → Option Block → Bool
  same_hash none none = true
  same_hash (some b) (some c) = eqb (o.native.hash b) (o.native.hash c)
  same_hash _ _ = false

  unfoldable pub same_token : List Block → List Block → Bool
  unfolding same_hash
  same_token before after =
      eqb (length before) (length after) && same_hash (last? before) (last? after)

  -- `before` is the node when its lock is taken first, and `later` its chain when it is taken again.
  unfoldable pub validate_block_txs :
      NodeState → List Block → Block → Tx → List Tx → Checked (List Tx)
  unfolding check_alone validate_transactions same_token
  validate_block_txs before later block cb txs = do
    check (check_alone block)
    check (overwrite chain_context_invalid (validate_chain_context o.native before.chain block))
    check (
        overwrite sigops_limit_exceeded
          (check_sigops_budget o.count_sigops before.utxos block.transactions))
    checked ←
        if ltb 0 block.height
        then validate_transactions before block.height cb txs
        else passed (cb ∷ txs)
    check (require (same_token before.chain later) chain_state_changed_during_validation)
    passed checked

  unfoldable pub validate_block : NodeState → List Block → Block → Checked (List Tx)
  unfolding validate_block_txs
  validate_block before later block = elim block.transactions [
    | [] ↦ refused block_missing_fields
    | cb ∷ txs ↦ validate_block_txs before later block cb txs
  ]
