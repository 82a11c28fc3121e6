-- ===== src/Codec/Tests.antt =====
-- A stored coinbase, a stored transaction and the block of both, and the results on them.
use graffiti_protocol.Base.{ℕ, zero, suc, ◌≡◌, refl, arith, inl, [], ◌∷◌, none, some, map}
use graffiti_protocol.Script.{Bytes, opcode, push, serialize, encode_pushdata}
use graffiti_protocol.Codec.Pack.{little_endian, fits}
use graffiti_protocol.Codec.Stored.{
  StoredTx, tx_bytes, tx_fits, input_fits, output_fits, extra_fits, to_storage_bytes,
  from_storage_bytes, stored_fee, join_with, input_bytes, witness_bytes, output_bytes, extra_bytes,
  coinbase_flag,
}
use graffiti_protocol.Codec.Restored.{IsStorable, from_storage_bytes-to_storage_bytes}
use graffiti_protocol.Codec.Blocks.{
  StoredBlock, block_bytes, block_fits, tx_part_fits, block_to_storage_bytes,
  block_from_storage_bytes,
}
use graffiti_protocol.Codec.Whole.{restored, block_from_storage_bytes-to_storage_bytes}

abbrev repeat : ℕ → ℕ → Bytes
repeat zero b = []
repeat (suc n) b = b ∷ repeat n b

abbrev spend : StoredTx
spend = record {
  version = 1;
  locktime = 0;
  inputs =
      record {
        prev_txid = repeat 32 7;
        vout = 3;
        amount = 100000;
        script_sig = [];
        witness = (1 ∷ 2 ∷ []) ∷ (3 ∷ []) ∷ [];
      }
      ∷ [];
  outputs = record { amount = 99000; script_pubkey = opcode 0 ∷ push (repeat 20 9) ∷ [] } ∷ [];
  extra = none;
  fee = 1;
}

abbrev coinbase : StoredTx
coinbase = record {
  version = 1;
  locktime = 0;
  inputs = [];
  outputs =
      record { amount = 25000000000; script_pubkey = opcode 0 ∷ push (repeat 20 8) ∷ [] } ∷ [];
  extra = some (record { to_address = 116 ∷ 115 ∷ []; block_id = 97 ∷ []; height = 5 });
  fee = 0;
}

spend-IsStorable : IsStorable spend
spend-IsStorable =
    (((refl, tt), tt), (((inl refl, omega arith), ((omega arith, omega arith), tt)), tt))

coinbase-IsStorable : IsStorable coinbase
coinbase-IsStorable = (tt, (((inl refl, omega arith), ((omega arith, omega arith), tt)), tt))

spend_stored : to_storage_bytes spend ≡ some (tx_bytes spend)
unfolding to_storage_bytes tx_fits input_fits output_fits extra_fits fits serialize encode_pushdata
spend_stored = refl

from_storage_bytes-to_storage_bytes_example :
    from_storage_bytes (tx_bytes spend)
    ≡ some (record spend { fee = stored_fee spend.inputs spend.outputs spend.extra })
from_storage_bytes-to_storage_bytes_example =
    from_storage_bytes-to_storage_bytes spend (tx_bytes spend) spend-IsStorable spend_stored

abbrev block : StoredBlock
block = record {
  version = 1;
  prev_block_hash = repeat 32 1;
  merkle_root = repeat 32 2;
  timestamp = 1700000000;
  bits = 0x1F9FFFFF;
  nonce = 77;
  height = 5;
  difficulty = 3;
  chainwork = 12;
  transactions = coinbase ∷ spend ∷ [];
}

block_stored : block_to_storage_bytes block ≡ some (block_bytes block)
unfolding block_to_storage_bytes block_fits tx_part_fits tx_fits input_fits output_fits extra_fits
    fits serialize encode_pushdata tx_bytes join_with input_bytes witness_bytes output_bytes
    extra_bytes coinbase_flag little_endian
block_stored = refl

block_from_storage_bytes-to_storage_bytes_example :
    block_from_storage_bytes (block_bytes block)
    ≡ some (record block { transactions = map restored block.transactions })
block_from_storage_bytes-to_storage_bytes_example =
    block_from_storage_bytes-to_storage_bytes block (block_bytes block)
      (refl, refl, (coinbase-IsStorable, (spend-IsStorable, tt))) block_stored
