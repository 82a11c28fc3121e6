-- ===== src/Mining/Template.antt =====
-- The block that a miner works on: `_build_candidate_block` and `_calculate_reward` of
-- src/tsarchain/consensus/mining.py, `apply_tx_to_utxoset` of
-- src/tsarchain/storage/utxo_logic/validate.py, and CoinbaseTx of src/tsarchain/core/coinbase.py.
-- `none` is an exception. An entry that `apply_tx_to_utxoset` makes has no `block_height`, for which
-- its reader takes 0.
use graffiti_protocol.Base.{
  ℕ, zero, suc, ◌+◌, ◌-◌, ◌/◌, ◌%◌, Bool, true, false, List, [], ◌∷◌, Option, none, some, last?,
  length, any, sum_by, eqb, ltb, ◌&&◌, ◌||◌, if◌then◌else◌, ◌>>=◌, ◌>>◌, guard, not, pos, insert,
  erase, member, add, pair_key,
}
use graffiti_protocol.Config.{max_supply}
use graffiti_protocol.Ledger.{Tx, TxIn, TxOut, Block, Outpoint, is_opreturn}
use graffiti_protocol.Script.{Bytes, push, serialize}
use graffiti_protocol.Utxo.{Entry, Utxos}
use graffiti_protocol.Graffiti.{Text}
use graffiti_protocol.Rewards.{get_block_reward}
use graffiti_protocol.Difficulty.{calculate_expected_bits}
use graffiti_protocol.Chain.Native.{Native}
use graffiti_protocol.Validation.{Addresses}
use graffiti_protocol.Mempool.Rules.{Answer, accepted, rejected, raised}
use graffiti_protocol.Mining.Posts.{is_graffiti_post, select_graffiti_art_id}

abbrev initial_bits : ℕ
initial_bits = 0x1F9FFFFF

-- The keys of the spent outputs go.
unfoldable pub remove_prevouts : List TxIn → Utxos → Utxos
remove_prevouts [] utxos = utxos
remove_prevouts (txin ∷ inputs) utxos =
    remove_prevouts inputs (erase (txin.prev_txid, txin.vout) utxos)

unfoldable pub insert_outputs : ℕ → Bool → ℕ → List TxOut → Utxos → Utxos
insert_outputs txid is_coinbase n [] utxos = utxos
insert_outputs txid is_coinbase n (txout ∷ outputs) utxos =
    let entry : Entry = record { tx_out = txout; is_coinbase = is_coinbase; block_height = 0 } in
    insert_outputs txid is_coinbase (n + 1) outputs
      (if is_opreturn txout.script_pubkey then utxos else insert (txid, n) entry utxos)

-- For a snapshot with keys `f"{txid}:{vout}"`, and no block.
unfoldable pub apply_tx_to_utxoset : Tx → Utxos → Utxos
unfolding remove_prevouts insert_outputs
apply_tx_to_utxoset tx utxos =
    insert_outputs tx.txid tx.is_coinbase 0 tx.outputs
      (if tx.is_coinbase then utxos else remove_prevouts tx.inputs utxos)

-- `used_utxos_in_block.add` for each input.
unfoldable pub note_used : List TxIn → List Outpoint → List Outpoint
note_used [] used = used
note_used (txin ∷ inputs) used = note_used inputs (add (txin.prev_txid, txin.vout) used)

-- Some input is used already.
abbrev pub is_used : List Outpoint → List TxIn → Bool
is_used used inputs = any (λ (txin : TxIn). member (txin.prev_txid, txin.vout) used) inputs

module _ (t : Text) (a : Addresses) (validate : Tx → Utxos → Answer ℕ) where
  -- The loop over the waiting transactions: those that are taken, with their fees.
  unfoldable pub collect : List Tx → Utxos → List Outpoint → Bool → Option (List Tx)
  unfolding is_graffiti_post apply_tx_to_utxoset note_used
  collect [] temp_utxos used graffiti_post_seen = some []
  collect (tx ∷ txs) temp_utxos used graffiti_post_seen =
      let skip = collect txs temp_utxos used graffiti_post_seen in
      if is_used used tx.inputs then skip else (elim (validate tx temp_utxos) [
        | rejected _ ↦ skip
        | raised ↦ none
        | accepted fee ↦ elim (is_graffiti_post t a tx) [
          | none ↦ none
          | some is_graff_post ↦
              let rest =
                collect txs (apply_tx_to_utxoset tx temp_utxos) (note_used tx.inputs used)
                  (is_graff_post || graffiti_post_seen) in
              if is_graff_post && graffiti_post_seen then skip else (elim rest [
                | none ↦ none
                | some valid_txs ↦ some (record tx { fee = fee } ∷ valid_txs)
              ])
        ]
      ])

-- `total_supply` is the node's own count of what is minted.
unfoldable pub calculate_reward : ℕ → ℕ → Option ℕ
calculate_reward total_supply height = do
  reward ← get_block_reward (pos height)
  some (if ltb max_supply (total_supply + reward) then max_supply - total_supply else reward)

-- `x.to_bytes((x.bit_length() + 7) // 8, "little")`, on fuel.
unfoldable pub le_bytes : ℕ → ℕ → Bytes
le_bytes zero x = []
le_bytes (suc fuel) x = let rest = le_bytes fuel (x / 256) in if eqb x 0 then [] else x % 256 ∷ rest

unfoldable pub int_to_le_bytes : ℕ → Bytes
unfolding le_bytes
int_to_le_bytes x = if eqb x 0 then 0 ∷ [] else le_bytes x x

-- What the coinbase takes from outside: the script of an address, `none` where it is none; a text
-- stripped, cut to MAX_COINBASE_EXTRADATA bytes, and as bytes; the id that is drawn for a block
-- without a post, and that of the genesis block.
pub record Coinbases : Type 0 where
  pub p2wpkh_script : ℕ → Option Bytes
  pub strip : ℕ → ℕ
  pub cut : ℕ → ℕ
  pub utf8 : ℕ → Bytes
  pub generated_id : ℕ
  pub genesis_id : ℕ

module _ (c : Coinbases) (native : Native) where
  -- A given block id, 0 for none.
  unfoldable pub coinbase_block_id : ℕ → ℕ → ℕ
  coinbase_block_id block_id height = c.cut (
      if eqb block_id 0
      then (if eqb height 0 then c.genesis_id else c.generated_id)
      else c.strip block_id)

  unfoldable pub coinbase_tx : ℕ → ℕ → ℕ → ℕ → Option Tx
  unfolding coinbase_block_id int_to_le_bytes
  coinbase_tx to_address reward block_id height = do
    guard (not (eqb to_address 0))
    guard (ltb 0 reward)
    script ← c.p2wpkh_script to_address
    (let id = coinbase_block_id block_id height in
        let cb : Tx = record {
          txid = 0;
          is_coinbase = true;
          inputs =
              record {
                prev_txid = 0;
                vout = 0xFFFFFFFF;
                script_sig = serialize (push (int_to_le_bytes height) ∷ push (c.utf8 id) ∷ []);
                witness = [];
              }
              ∷ [];
          outputs = record { amount = reward; script_pubkey = script } ∷ [];
          fee = 0;
          block_id = some id;
        } in
        (elim (native.txid_of cb) [ none ↦ none | some txid ↦ some (record cb { txid = txid }) ]))

  module _ (t : Text) (a : Addresses) (validate : Tx → Utxos → Answer ℕ) where
    -- The block of the taken transactions; a difficulty of None is 0.
    unfoldable pub assemble : ℕ → ℕ → List Block → List Tx → Option Block
    unfolding select_graffiti_art_id coinbase_tx
    assemble miner_address reward chain valid_txs =
        let height = length chain in
        (do
          art_id ← select_graffiti_art_id t a valid_txs
          coinbase ←
              coinbase_tx miner_address (reward + sum_by (λ (tx : Tx). tx.fee) valid_txs) art_id
                height
          some (record {
            height = height;
            prev_block_hash = elim (last? chain) [ none ↦ 0 | some b ↦ native.hash b ];
            merkle_root = native.merkle_root_of (coinbase ∷ valid_txs);
            timestamp = native.now;
            bits = if ltb 0 height then calculate_expected_bits chain height else initial_bits;
            nonce = 0;
            transactions = coinbase ∷ valid_txs;
            chainwork = none;
            difficulty = 0;
          }))

    unfoldable pub build_candidate_block : ℕ → ℕ → List Block → Utxos → List Tx → Option Block
    unfolding collect assemble
    build_candidate_block miner_address reward chain utxos txs_from_mempool = do
      valid_txs ← collect t a validate txs_from_mempool utxos [] false
      assemble miner_address reward chain valid_txs
