-- ===== src/Codec/Restored.antt =====
-- What `to_storage_bytes` of a transaction writes is read back by `from_storage_bytes`.
use graffiti_protocol.Base.{
  ℕ, ◌≡◌, refl, arith, true, List, [], ◌∷◌, ◌++◌, Option, none, some, length, all, ltb, Bool-cases,
  inl, inr,
}
use mathlib.Core.List.{append_assoc, append-nil}
use graffiti_protocol.Script.{Bytes, serialize}
use graffiti_protocol.Script.RoundTrip.{
  AreReadable, deserialize-serialize, take-append, drop-append,
}
use graffiti_protocol.Codec.Pack.{fits}
use graffiti_protocol.Codec.Packed.{read_bytes-append, read_number-append, take_part, drop_part}
use graffiti_protocol.Codec.Stored.{
  StoredIn, StoredOut, CoinbaseExtra, StoredTx, join_with, u8, u16, u32, u64, witness_bytes,
  input_bytes, output_bytes, extra_bytes, coinbase_flag, tx_bytes, input_fits, output_fits,
  extra_fits, tx_fits, to_storage_bytes, read_witness, read_input, read_output, read_many,
  read_extra, read_extra_if, stored_fee, from_storage_bytes,
}

-- An id of 32 bytes, as TxIn's constructor asks for, and a script that is read back.
abbrev IsStorableIn : StoredIn → Type 0
IsStorableIn i = (length i.prev_txid ≡ 32) × AreReadable i.script_sig

abbrev AreStorableIn : List StoredIn → Type 0
AreStorableIn [] = Unit {0}
AreStorableIn (i ∷ inputs) = IsStorableIn i × AreStorableIn inputs

abbrev AreStorableOut : List StoredOut → Type 0
AreStorableOut [] = Unit {0}
AreStorableOut (o ∷ outputs) = AreReadable o.script_pubkey × AreStorableOut outputs

abbrev pub IsStorable : StoredTx → Type 0
IsStorable tx = AreStorableIn tx.inputs × AreStorableOut tx.outputs

read_witness-join :
    (ws : List Bytes) (rest : Bytes)
    → all (λ w. fits 2 (length w)) ws ≡ true
    → read_witness (length ws) (join_with witness_bytes ws ++ rest) ≡ some (ws, rest)
unfolding read_witness join_with witness_bytes
read_witness-join [] rest h = refl
read_witness-join (w ∷ ws) rest h =
    let more = join_with witness_bytes ws in
    rw
      (
        append_assoc (u16 (length w) ++ w) more rest,
        read_number-append 2 (length w) w (more ++ rest) (ground arith),
        take-append w (more ++ rest),
        drop-append w (more ++ rest),
        read_witness-join ws rest (ground arith),
      )
      refl

read_input-bytes :
    (i : StoredIn) (rest : Bytes)
    → IsStorableIn i
    → input_fits i ≡ true
    → read_input (input_bytes i ++ rest) ≡ some (i, rest)
unfolding read_input input_bytes input_fits
read_input-bytes i rest (e, r) h =
    let ss = serialize i.script_sig in
    let w = join_with witness_bytes i.witness in
    let c4 = u16 (length i.witness) ++ (ss ++ w) in
    let c3 = u16 (length ss) ++ c4 in
    let c2 = u64 i.amount ++ c3 in
    rw
      (
        read_bytes-append i.prev_txid (u32 i.vout ++ c2) rest 32 e,
        read_number-append 4 i.vout c2 rest (ground arith),
        read_number-append 8 i.amount c3 rest (ground arith),
        read_number-append 2 (length ss) c4 rest (ground arith),
        read_number-append 2 (length i.witness) (ss ++ w) rest (ground arith),
        take_part ss w rest,
        drop_part ss w rest,
        deserialize-serialize i.script_sig r,
        read_witness-join i.witness rest (ground arith),
      )
      refl

read_output-bytes :
    (o : StoredOut) (rest : Bytes)
    → AreReadable o.script_pubkey
    → output_fits o ≡ true
    → read_output (output_bytes o ++ rest) ≡ some (o, rest)
unfolding read_output output_bytes output_fits
read_output-bytes o rest r h =
    let spk = serialize o.script_pubkey in
    rw
      (
        read_number-append 8 o.amount (u16 (length spk) ++ spk) rest (ground arith),
        read_number-append 2 (length spk) spk rest (ground arith),
        take-append spk rest,
        drop-append spk rest,
        deserialize-serialize o.script_pubkey r,
      )
      refl

read_inputs-join :
    (inputs : List StoredIn) (rest : Bytes)
    → AreStorableIn inputs
    → all input_fits inputs ≡ true
    → read_many read_input (length inputs) (join_with input_bytes inputs ++ rest)
      ≡ some (inputs, rest)
unfolding read_many join_with
read_inputs-join [] rest s h = refl
read_inputs-join (i ∷ inputs) rest (a, s) h =
    let more = join_with input_bytes inputs in
    rw
      (
        append_assoc (input_bytes i) more rest,
        read_input-bytes i (more ++ rest) a (ground arith),
        read_inputs-join inputs rest s (ground arith),
      )
      refl

read_outputs-join :
    (outputs : List StoredOut) (rest : Bytes)
    → AreStorableOut outputs
    → all output_fits outputs ≡ true
    → read_many read_output (length outputs) (join_with output_bytes outputs ++ rest)
      ≡ some (outputs, rest)
unfolding read_many join_with
read_outputs-join [] rest s h = refl
read_outputs-join (o ∷ outputs) rest (a, s) h =
    let more = join_with output_bytes outputs in
    rw
      (
        append_assoc (output_bytes o) more rest,
        read_output-bytes o (more ++ rest) a (ground arith),
        read_outputs-join outputs rest s (ground arith),
      )
      refl

height_fits : (h : ℕ) → ltb h 9223372036854775808 ≡ true → fits 8 h ≡ true
unfolding fits
height_fits h e = ground arith

read_extra-bytes :
    (c : CoinbaseExtra) (rest : Bytes)
    → extra_fits (some c) ≡ true
    → read_extra (extra_bytes (some c) ++ rest) ≡ some c
unfolding read_extra extra_bytes extra_fits
read_extra-bytes c rest h =
    let texts = c.to_address ++ c.block_id in
    let c3 = u16 0 ++ (u64 c.height ++ texts) in
    rw
      (
        read_number-append 1 (length c.to_address) (u16 (length c.block_id) ++ c3) rest
            (ground arith),
        read_number-append 2 (length c.block_id) c3 rest (ground arith),
        read_number-append 2 0 (u64 c.height ++ texts) rest (unfold fits in refl),
        read_number-append 8 c.height texts rest (height_fits c.height (ground arith)),
        take_part c.to_address c.block_id rest,
        drop_part c.to_address c.block_id rest,
        take-append c.block_id rest,
      )
      refl

read_extra_if-bytes :
    (extra : Option CoinbaseExtra) (rest : Bytes)
    → extra_fits extra ≡ true
    → read_extra_if (coinbase_flag extra) (extra_bytes extra ++ rest) ≡ some extra
unfolding read_extra_if coinbase_flag
read_extra_if-bytes none rest h = refl
read_extra_if-bytes (some c) rest h = ground (arith, read_extra-bytes c rest h)

flag_fits : (extra : Option CoinbaseExtra) → fits 1 (coinbase_flag extra) ≡ true
unfolding fits coinbase_flag
flag_fits none = refl
flag_fits (some c) = refl

from_storage_bytes-rest :
    (tx : StoredTx) (rest : Bytes)
    → IsStorable tx
    → tx_fits tx ≡ true
    → from_storage_bytes (tx_bytes tx ++ rest)
      ≡ some (record tx { fee = stored_fee tx.inputs tx.outputs tx.extra })
unfolding from_storage_bytes tx_bytes tx_fits
from_storage_bytes-rest tx rest (ins, outs) h =
    let c7 = extra_bytes tx.extra in
    let o = join_with output_bytes tx.outputs in
    let c6 = u16 (length tx.outputs) ++ (o ++ c7) in
    let i = join_with input_bytes tx.inputs in
    let c4 = u16 (length tx.inputs) ++ (i ++ c6) in
    let c3 = u8 (coinbase_flag tx.extra) ++ c4 in
    rw
      (
        read_number-append 4 tx.version (u32 tx.locktime ++ c3) rest (ground arith),
        read_number-append 4 tx.locktime c3 rest (ground arith),
        read_number-append 1 (coinbase_flag tx.extra) c4 rest (flag_fits tx.extra),
        read_number-append 2 (length tx.inputs) (i ++ c6) rest (ground arith),
        append_assoc i c6 rest,
        read_inputs-join tx.inputs (c6 ++ rest) ins (ground arith),
        read_number-append 2 (length tx.outputs) (o ++ c7) rest (ground arith),
        append_assoc o c7 rest,
        read_outputs-join tx.outputs (c7 ++ rest) outs (ground arith),
        read_extra_if-bytes tx.extra rest (ground arith),
      )
      refl

pub from_storage_bytes-fits :
    (tx : StoredTx)
    → IsStorable tx
    → tx_fits tx ≡ true
    → from_storage_bytes (tx_bytes tx)
      ≡ some (record tx { fee = stored_fee tx.inputs tx.outputs tx.extra })
from_storage_bytes-fits tx s fine =
    rw (append-nil (tx_bytes tx)) at (from_storage_bytes-rest tx [] s fine)

-- A transaction that is written to the store is read back with every field that is stored, and with
-- the fee that its amounts leave, 0 for a coinbase; if its scripts are made of opcodes 0 and 79 to 255
-- and pushes that are not empty, and the ids of its inputs have 32 bytes. Where a field does not fit
-- its place nothing is written.
pub from_storage_bytes-to_storage_bytes :
    (tx : StoredTx) (raw : Bytes)
    → IsStorable tx
    → to_storage_bytes tx ≡ some raw
    → from_storage_bytes raw ≡ some (record tx { fee = stored_fee tx.inputs tx.outputs tx.extra })
unfolding to_storage_bytes
from_storage_bytes-to_storage_bytes tx raw s h = elim (Bool-cases (tx_fits tx)) [
  | inr over ↦ absurd (ground arith)
  | inl fine ↦
      let same : raw ≡ tx_bytes tx = ground arith in rw same (from_storage_bytes-fits tx s fine)
]
