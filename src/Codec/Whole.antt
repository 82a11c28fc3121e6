-- ===== src/Codec/Whole.antt =====
-- What `to_storage_bytes` of a block writes is read back by its `from_storage_bytes`.
use graffiti_protocol.Base.{
  ◌≤◌, ◌≡◌, refl, arith, true, false, List, [], ◌∷◌, ◌++◌, some, length, all, map, ltb, Bool-cases,
  inl, inr, length-append,
}
use mathlib.Core.List.{append_assoc, append-nil}
use graffiti_protocol.Script.{Bytes}
use graffiti_protocol.Script.RoundTrip.{take-append, drop-append}
use graffiti_protocol.Codec.Packed.{read_bytes-append, read_number-append, length-little_endian}
use graffiti_protocol.Codec.Stored.{StoredTx, join_with, u32, u64, tx_bytes, stored_fee, read_many}
use graffiti_protocol.Codec.Blocks.{
  StoredBlock, tx_part, block_tail, block_bytes, tx_part_fits, block_fits, block_to_storage_bytes,
  read_tx_part, read_tail, read_block, block_from_storage_bytes,
}
use graffiti_protocol.Codec.Restored.{IsStorable, from_storage_bytes-fits}

abbrev AreStorable : List StoredTx → Type 0
AreStorable [] = Unit {0}
AreStorable (tx ∷ txs) = IsStorable tx × AreStorable txs

abbrev IsStorableBlock : StoredBlock → Type 0
IsStorableBlock b =
    (length b.prev_block_hash ≡ 32) × (length b.merkle_root ≡ 32) × AreStorable b.transactions

-- A transaction with the fee that its amounts leave.
abbrev pub restored : StoredTx → StoredTx
restored tx = record tx { fee = stored_fee tx.inputs tx.outputs tx.extra }

read_txs-join :
    (txs : List StoredTx) (rest : Bytes)
    → AreStorable txs
    → all tx_part_fits txs ≡ true
    → read_many read_tx_part (length txs) (join_with tx_part txs ++ rest)
      ≡ some (map restored txs, rest)
unfolding read_many join_with read_tx_part tx_part tx_part_fits
read_txs-join [] rest s h = refl
read_txs-join (tx ∷ txs) rest (a, s) h =
    let more = join_with tx_part txs in
    rw
      (
        append_assoc (u32 (length (tx_bytes tx)) ++ tx_bytes tx) more rest,
        read_number-append 4 (length (tx_bytes tx)) (tx_bytes tx) (more ++ rest) (ground arith),
        take-append (tx_bytes tx) (more ++ rest),
        drop-append (tx_bytes tx) (more ++ rest),
        from_storage_bytes-fits tx a (ground arith),
        read_txs-join txs rest s (ground arith),
      )
      refl

read_tail-bytes :
    (b : StoredBlock) (rest : Bytes)
    → AreStorable b.transactions
    → block_fits b ≡ true
    → read_tail b.version b.prev_block_hash b.merkle_root b.timestamp b.bits b.nonce
        (block_tail b ++ rest)
      ≡ some (record b { transactions = map restored b.transactions })
unfolding read_tail block_tail block_fits
read_tail-bytes b rest s h =
    let txs = join_with tx_part b.transactions in
    let c3 = u32 (length b.transactions) ++ txs in
    rw
      (
        read_number-append 8 b.height (u64 b.difficulty ++ (u64 b.chainwork ++ c3)) rest
            (ground arith),
        read_number-append 8 b.difficulty (u64 b.chainwork ++ c3) rest (ground arith),
        read_number-append 8 b.chainwork c3 rest (ground arith),
        read_number-append 4 (length b.transactions) txs rest (ground arith),
        read_txs-join b.transactions rest s (ground arith),
      )
      refl

read_block-bytes :
    (b : StoredBlock) (rest : Bytes)
    → IsStorableBlock b
    → block_fits b ≡ true
    → read_block (block_bytes b ++ rest)
      ≡ some (record b { transactions = map restored b.transactions })
unfolding read_block block_bytes block_fits
read_block-bytes b rest (p, m, s) h =
    let c6 = u32 b.nonce ++ block_tail b in
    let c4 = u32 b.timestamp ++ (u32 b.bits ++ c6) in
    rw
      (
        read_number-append 4 b.version (b.prev_block_hash ++ (b.merkle_root ++ c4)) rest
            (ground arith),
        read_bytes-append b.prev_block_hash (b.merkle_root ++ c4) rest 32 p,
        read_bytes-append b.merkle_root c4 rest 32 m,
        read_number-append 4 b.timestamp (u32 b.bits ++ c6) rest (ground arith),
        read_number-append 4 b.bits c6 rest (ground arith),
        read_number-append 4 b.nonce (block_tail b) rest (ground arith),
        read_tail-bytes b rest s h,
      )
      refl

-- The header, the tail and the count of the transactions.
header_size :
    (a b c d e p m : Bytes)
    → length a ≡ 4
    → length p ≡ 32
    → length m ≡ 32
    → length b ≡ 4
    → length c ≡ 4
    → length d ≡ 4
    → 28 ≤ length e
    → 108 ≤ length (a ++ (p ++ (m ++ (b ++ (c ++ (d ++ e))))))
header_size a b c d e p m la lp lm lb lc ld le = omega (
  arith,
  length-append a (p ++ (m ++ (b ++ (c ++ (d ++ e))))),
  length-append p (m ++ (b ++ (c ++ (d ++ e)))),
  length-append m (b ++ (c ++ (d ++ e))),
  length-append b (c ++ (d ++ e)),
  length-append c (d ++ e),
  length-append d e,
)

tail_size : (b : StoredBlock) → 28 ≤ length (block_tail b)
unfolding block_tail
tail_size b =
    let txs = join_with tx_part b.transactions in
    let c3 = u32 (length b.transactions) ++ txs in
    omega (
      arith,
      length-append (u64 b.height) (u64 b.difficulty ++ (u64 b.chainwork ++ c3)),
      length-append (u64 b.difficulty) (u64 b.chainwork ++ c3),
      length-append (u64 b.chainwork) c3,
      length-append (u32 (length b.transactions)) txs,
      length-little_endian 8 b.height,
      length-little_endian 8 b.difficulty,
      length-little_endian 8 b.chainwork,
      length-little_endian 4 (length b.transactions),
    )

block_size : (b : StoredBlock) → IsStorableBlock b → 108 ≤ length (block_bytes b)
unfolding block_bytes
block_size b (p, m, s) =
    header_size (u32 b.version) (u32 b.timestamp) (u32 b.bits) (u32 b.nonce) (block_tail b)
      b.prev_block_hash b.merkle_root (length-little_endian 4 b.version) p m
      (length-little_endian 4 b.timestamp) (length-little_endian 4 b.bits)
      (length-little_endian 4 b.nonce) (tail_size b)

-- A block that is written to the store is read back with its header, its height, difficulty and
-- chainwork, and its transactions in their order, each as a stored transaction is read back; if its
-- hashes have 32 bytes and its transactions can be stored.
pub block_from_storage_bytes-to_storage_bytes :
    (b : StoredBlock) (raw : Bytes)
    → IsStorableBlock b
    → block_to_storage_bytes b ≡ some raw
    → block_from_storage_bytes raw ≡ some (record b { transactions = map restored b.transactions })
unfolding block_to_storage_bytes block_from_storage_bytes
block_from_storage_bytes-to_storage_bytes b raw s h = elim (Bool-cases (block_fits b)) [
  | inr over ↦ absurd (ground arith)
  | inl fine ↦
      let same : raw ≡ block_bytes b = ground arith in
      let long : ltb (length (block_bytes b)) 108 ≡ false = ground (arith, block_size b s) in
      let read = rw (append-nil (block_bytes b)) at (read_block-bytes b [] s fine) in
      rw (same, long) read
]
