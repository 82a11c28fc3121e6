-- ===== src/Chain/Native.antt =====
-- What the chain rules take from outside the repository.
use graffiti_protocol.Base.{ℕ, Bool, true, false, List, Option, none, some, all, eqb, leb}
use graffiti_protocol.Ledger.{Tx, Block}
use graffiti_protocol.Compact.{bits_to_target}

-- `hash` reads a hash as a big-endian integer; hashes have one length, so their order as bytes is
-- the order of these numbers, and ZERO_HASH is 0.
pub record Native : Type 0 where
  pub hash : Block → ℕ
  pub merkle_root_of : List Tx → ℕ
  pub txid_of : Tx → Option ℕ
  pub genesis_hash : Option ℕ
  pub now : ℕ

module _ (native : Native) where
  open native use {hash, merkle_root_of, txid_of, genesis_hash}

  unfoldable pub pow_ok : Block → Bool
  pow_ok b = leb (hash b) (bits_to_target b.bits)

  unfoldable pub merkle_ok : Block → Bool
  merkle_ok b = eqb (merkle_root_of b.transactions) b.merkle_root

  -- `compute_txids_for_block`: every stored id is the hash of the serialised transaction.
  unfoldable pub txids_ok : Block → Bool
  txids_ok b =
      all (λ tx. elim (txid_of tx) [ none ↦ false | some t ↦ eqb tx.txid t ]) b.transactions

  -- `GENESIS_HASH is None or g.hash() == GENESIS_HASH`
  unfoldable pub genesis_lock_ok : Block → Bool
  genesis_lock_ok b = elim genesis_hash [ none ↦ true | some h ↦ eqb (hash b) h ]
