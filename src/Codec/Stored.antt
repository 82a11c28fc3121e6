-- ===== src/Codec/Stored.antt =====
-- Stored transactions and blocks. A text is its bytes in UTF-8.
use graffiti_protocol.Base.{
  ℕ, zero, suc, ◌-◌, Bool, true, List, [], ◌∷◌, ◌++◌, Option, none, some, length, all, sum_by, ltb,
  ◌&&◌, ◌>>=◌, if◌then◌else◌,
}
use graffiti_protocol.Script.{Bytes, Command, serialize, deserialize}
use graffiti_protocol.Codec.Pack.{little_endian, fits, read_bytes, read_number, slice}

pub record StoredIn : Type 0 where
  pub prev_txid : Bytes
  pub vout : ℕ
  pub amount : ℕ
  pub script_sig : List Command
  pub witness : List Bytes

pub record StoredOut : Type 0 where
  pub amount : ℕ
  pub script_pubkey : List Command

pub record CoinbaseExtra : Type 0 where
  pub to_address : Bytes
  pub block_id : Bytes
  pub height : ℕ

-- `extra` is there for a coinbase.
pub record StoredTx : Type 0 where
  pub version : ℕ
  pub locktime : ℕ
  pub inputs : List StoredIn
  pub outputs : List StoredOut
  pub extra : Option CoinbaseExtra
  pub fee : ℕ

-- A list of parts, joined.
unfoldable pub join_with : {A : Type 0} → (A → Bytes) → List A → Bytes
join_with f [] = []
join_with f (x ∷ xs) = f x ++ join_with f xs

abbrev pub u8 : ℕ → Bytes
u8 n = little_endian 1 n

abbrev pub u16 : ℕ → Bytes
u16 n = little_endian 2 n

abbrev pub u32 : ℕ → Bytes
u32 n = little_endian 4 n

abbrev pub u64 : ℕ → Bytes
u64 n = little_endian 8 n

unfoldable pub witness_bytes : Bytes → Bytes
witness_bytes w = u16 (length w) ++ w

unfoldable pub input_bytes : StoredIn → Bytes
unfolding join_with witness_bytes
input_bytes i =
    let ss_bytes = serialize i.script_sig in
    i.prev_txid
    ++ (u32 i.vout
        ++ (u64 i.amount
            ++ (u16 (length ss_bytes)
                ++ (u16 (length i.witness) ++ (ss_bytes ++ join_with witness_bytes i.witness)))))

unfoldable pub output_bytes : StoredOut → Bytes
output_bytes out =
    let spk_bytes = serialize out.script_pubkey in
    u64 out.amount ++ (u16 (length spk_bytes) ++ spk_bytes)

-- The format ends in a signed 64-bit height; a height is not negative.
unfoldable pub extra_bytes : Option CoinbaseExtra → Bytes
extra_bytes none = []
extra_bytes (some c) =
    u8 (length c.to_address)
    ++ (u16 (length c.block_id) ++ (u16 0 ++ (u64 c.height ++ (c.to_address ++ c.block_id))))

unfoldable pub coinbase_flag : Option CoinbaseExtra → ℕ
coinbase_flag none = 0
coinbase_flag (some c) = 1

unfoldable pub tx_bytes : StoredTx → Bytes
unfolding join_with input_bytes output_bytes extra_bytes coinbase_flag
tx_bytes tx =
    u32 tx.version
    ++ (u32 tx.locktime
        ++ (u8 (coinbase_flag tx.extra)
            ++ (u16 (length tx.inputs)
                ++ (join_with input_bytes tx.inputs
                    ++ (u16 (length tx.outputs)
                        ++ (join_with output_bytes tx.outputs ++ extra_bytes tx.extra))))))

-- No struct.pack raises.
unfoldable pub input_fits : StoredIn → Bool
input_fits i =
    fits 4 i.vout
    && fits 8 i.amount
    && fits 2 (length (serialize i.script_sig))
    && fits 2 (length i.witness)
    && all (λ w. fits 2 (length w)) i.witness

unfoldable pub output_fits : StoredOut → Bool
output_fits out = fits 8 out.amount && fits 2 (length (serialize out.script_pubkey))

unfoldable pub extra_fits : Option CoinbaseExtra → Bool
extra_fits none = true
extra_fits (some c) =
    fits 1 (length c.to_address) && fits 2 (length c.block_id) && ltb c.height 9223372036854775808

unfoldable pub tx_fits : StoredTx → Bool
unfolding input_fits output_fits extra_fits
tx_fits tx =
    fits 4 tx.version
    && fits 4 tx.locktime
    && fits 2 (length tx.inputs)
    && all input_fits tx.inputs
    && fits 2 (length tx.outputs)
    && all output_fits tx.outputs
    && extra_fits tx.extra

unfoldable pub to_storage_bytes : StoredTx → Option Bytes
unfolding tx_fits tx_bytes
to_storage_bytes tx = if tx_fits tx then some (tx_bytes tx) else none

-- The loops of `from_storage_bytes`, each with what it leaves.
unfoldable pub read_witness : ℕ → Bytes → Option (List Bytes × Bytes)
read_witness zero raw = some ([], raw)
read_witness (suc n) raw = do
  (w_len, rest) ← read_number 2 raw
  (ws, rest') ← read_witness n (slice w_len rest).1
  some ((slice w_len rest).0 ∷ ws, rest')

unfoldable pub read_input : Bytes → Option (StoredIn × Bytes)
unfolding read_witness
read_input raw = do
  (prev_txid, r1) ← read_bytes 32 raw
  (vout, r2) ← read_number 4 r1
  (amt, r3) ← read_number 8 r2
  (ss_len, r4) ← read_number 2 r3
  (wit_count, r5) ← read_number 2 r4
  script_sig ← deserialize (slice ss_len r5).0
  (witness, r6) ← read_witness wit_count (slice ss_len r5).1
  some (
    record {
      prev_txid = prev_txid;
      vout = vout;
      amount = amt;
      script_sig = script_sig;
      witness = witness;
    },
    r6,
  )

unfoldable pub read_output : Bytes → Option (StoredOut × Bytes)
read_output raw = do
  (amt, r1) ← read_number 8 raw
  (spk_len, r2) ← read_number 2 r1
  script_pubkey ← deserialize (slice spk_len r2).0
  some (record { amount = amt; script_pubkey = script_pubkey }, (slice spk_len r2).1)

unfoldable pub read_many :
    {A : Type 0} → (Bytes → Option (A × Bytes)) → ℕ → Bytes → Option (List A × Bytes)
read_many f zero raw = some ([], raw)
read_many f (suc n) raw = do
  (x, rest) ← f raw
  (xs, rest') ← read_many f n rest
  some (x ∷ xs, rest')

unfoldable pub read_extra : Bytes → Option CoinbaseExtra
read_extra raw = do
  (to_addr_len, r1) ← read_number 1 raw
  (blk_id_len, r2) ← read_number 2 r1
  (unused, r3) ← read_number 2 r2
  (h, r4) ← read_number 8 r3
  some (record {
    to_address = (slice to_addr_len r4).0;
    block_id = (slice blk_id_len (slice to_addr_len r4).1).0;
    height = h;
  })

-- What the inputs are worth beyond the outputs, and 0 for a coinbase.
unfoldable pub stored_fee : List StoredIn → List StoredOut → Option CoinbaseExtra → ℕ
stored_fee inputs outputs none = sum_by (λ i. i.amount) inputs - sum_by (λ o. o.amount) outputs
stored_fee inputs outputs (some c) = 0

-- The part after the outputs, by the flag.
unfoldable pub read_extra_if : ℕ → Bytes → Option (Option CoinbaseExtra)
unfolding read_extra
read_extra_if zero raw = some none
read_extra_if (suc flag) raw = elim (read_extra raw) [ none ↦ none | some c ↦ some (some c) ]

unfoldable pub from_storage_bytes : Bytes → Option StoredTx
unfolding read_many read_input read_output read_extra_if stored_fee
from_storage_bytes raw = do
  (version, r1) ← read_number 4 raw
  (locktime, r2) ← read_number 4 r1
  (flag, r3) ← read_number 1 r2
  (in_count, r4) ← read_number 2 r3
  (inputs, r5) ← read_many read_input in_count r4
  (out_count, r6) ← read_number 2 r5
  (outputs, r7) ← read_many read_output out_count r6
  extra ← read_extra_if flag r7
  some (record {
    version = version;
    locktime = locktime;
    inputs = inputs;
    outputs = outputs;
    extra = extra;
    fee = stored_fee inputs outputs extra;
  })
