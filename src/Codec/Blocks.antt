-- ===== src/Codec/Blocks.antt =====
-- Stored blocks: `to_storage_bytes` and `from_storage_bytes` of class Block, and `serialize_block` of
-- class BlockHeader, of src/tsarchain/core/block.py.
use graffiti_protocol.Base.{
  ℕ, Bool, List, ◌++◌, Option, none, some, length, all, ltb, ◌&&◌, ◌>>=◌, if◌then◌else◌,
}
use graffiti_protocol.Script.{Bytes}
use graffiti_protocol.Codec.Pack.{fits, read_bytes, read_number, slice}
use graffiti_protocol.Codec.Stored.{
  StoredTx, join_with, u32, u64, tx_bytes, tx_fits, read_many, from_storage_bytes,
}

pub record StoredBlock : Type 0 where
  pub version : ℕ
  pub prev_block_hash : Bytes
  pub merkle_root : Bytes
  pub timestamp : ℕ
  pub bits : ℕ
  pub nonce : ℕ
  pub height : ℕ
  pub difficulty : ℕ
  pub chainwork : ℕ
  pub transactions : List StoredTx

unfoldable pub tx_part : StoredTx → Bytes
tx_part tx = u32 (length (tx_bytes tx)) ++ tx_bytes tx

unfoldable pub block_tail : StoredBlock → Bytes
unfolding join_with tx_part
block_tail b =
    u64 b.height
    ++ (u64 b.difficulty
        ++ (u64 b.chainwork ++ (u32 (length b.transactions) ++ join_with tx_part b.transactions)))

unfoldable pub block_bytes : StoredBlock → Bytes
unfolding block_tail
block_bytes b =
    u32 b.version
    ++ (b.prev_block_hash
        ++ (b.merkle_root ++ (u32 b.timestamp ++ (u32 b.bits ++ (u32 b.nonce ++ block_tail b)))))

unfoldable pub tx_part_fits : StoredTx → Bool
tx_part_fits tx = tx_fits tx && fits 4 (length (tx_bytes tx))

-- No `to_bytes` and no struct.pack raises.
unfoldable pub block_fits : StoredBlock → Bool
unfolding tx_part_fits
block_fits b =
    fits 4 b.version
    && fits 4 b.timestamp
    && fits 4 b.bits
    && fits 4 b.nonce
    && fits 8 b.height
    && fits 8 b.difficulty
    && fits 8 b.chainwork
    && fits 4 (length b.transactions)
    && all tx_part_fits b.transactions

unfoldable pub block_to_storage_bytes : StoredBlock → Option Bytes
unfolding block_fits block_bytes
block_to_storage_bytes b = if block_fits b then some (block_bytes b) else none

unfoldable pub read_tx_part : Bytes → Option (StoredTx × Bytes)
read_tx_part raw = do
  (tx_len, r1) ← read_number 4 raw
  tx ← from_storage_bytes (slice tx_len r1).0
  some (tx, (slice tx_len r1).1)

unfoldable pub read_tail : ℕ → Bytes → Bytes → ℕ → ℕ → ℕ → Bytes → Option StoredBlock
unfolding read_many read_tx_part
read_tail version prev merkle timestamp bits nonce raw = do
  (h, r1) ← read_number 8 raw
  (diff, r2) ← read_number 8 r1
  (cw, r3) ← read_number 8 r2
  (tx_count, r4) ← read_number 4 r3
  (txs, r5) ← read_many read_tx_part tx_count r4
  some (record {
    version = version;
    prev_block_hash = prev;
    merkle_root = merkle;
    timestamp = timestamp;
    bits = bits;
    nonce = nonce;
    height = h;
    difficulty = diff;
    chainwork = cw;
    transactions = txs;
  })

unfoldable pub read_block : Bytes → Option StoredBlock
unfolding read_tail
read_block raw = do
  (version, r1) ← read_number 4 raw
  (prev_hash, r2) ← read_bytes 32 r1
  (merkle, r3) ← read_bytes 32 r2
  (timestamp, r4) ← read_number 4 r3
  (bits, r5) ← read_number 4 r4
  (nonce, r6) ← read_number 4 r5
  read_tail version prev_hash merkle timestamp bits nonce r6

unfoldable pub block_from_storage_bytes : Bytes → Option StoredBlock
unfolding read_block
block_from_storage_bytes raw = if ltb (length raw) 108 then none else read_block raw
