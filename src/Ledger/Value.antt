-- ===== src/Ledger/Value.antt =====
-- Transactions and blocks as records, and sums of amounts.
use graffiti_protocol.Base.{ℕ, Bool, false, List, [], ◌∷◌, Option, sum_by, eqb}

pub record TxIn : Type 0 where
  pub prev_txid : ℕ
  pub vout : ℕ
  pub script_sig : List ℕ
  pub witness : List (List ℕ)

pub record TxOut : Type 0 where
  pub amount : ℕ
  pub script_pubkey : List ℕ

pub record Tx : Type 0 where
  pub txid : ℕ
  pub is_coinbase : Bool
  pub inputs : List TxIn
  pub outputs : List TxOut
  pub fee : ℕ
  pub block_id : Option ℕ

pub record Block : Type 0 where
  pub height : ℕ
  pub prev_block_hash : ℕ
  pub merkle_root : ℕ
  pub timestamp : ℕ
  pub bits : ℕ
  pub nonce : ℕ
  pub transactions : List Tx
  pub chainwork : Option ℕ
  pub difficulty : ℕ

-- The key `f"{txid}:{vout}"` of an output.
abbrev pub Outpoint : Type 0
Outpoint = ℕ × ℕ

-- `len(b) >= 1 and b[0] == 0x6A`
unfoldable pub is_opreturn : List ℕ → Bool
is_opreturn [] = false
is_opreturn (b ∷ _) = eqb b 0x6A

-- `sum(int(o.amount) for o in outputs)`
abbrev pub output_sum : List TxOut → ℕ
output_sum = sum_by (λ o. o.amount)
