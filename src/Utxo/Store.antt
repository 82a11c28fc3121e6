-- ===== src/Utxo/Store.antt =====
-- The state, and the operations of one output: `add`, `remove`, `flush`, `_save` and `_load`.
-- The key `f"{txid}:{index}"` is the pair of its parts. The metadata record under `__meta__` and
-- the clock are left out, and the address index is not part of this state.
use graffiti_protocol.Base.{
  ℕ, ◌+◌, ◌%◌, ◌^◌, Bool, true, false, List, [], ◌∷◌, none, some, map, if◌then◌else◌, ◌||◌, not,
  ◌&&◌, Dict, lookup, insert, erase, contains, add, discard, pair_key,
}
use graffiti_protocol.Ledger.{Outpoint, TxOut, is_opreturn}

pub record Entry : Type 0 where
  pub tx_out : TxOut
  pub is_coinbase : Bool
  pub block_height : ℕ

abbrev pub Utxos : Type 0
Utxos = Dict Outpoint Entry

-- `disk` is the store's content; `recorded` are the calls of `_record_graffiti_event`.
pub record Store : Type 0 where
  pub utxos : Utxos
  pub dirty : Bool
  pub dirty_keys : List Outpoint
  pub removed_keys : List Outpoint
  pub rewrite_all : Bool
  pub version : ℕ
  pub disk : Utxos
  pub recorded : List (ℕ × ℕ)

unfoldable pub bump_version : Store → Store
bump_version s = record s { version = (s.version + 1) % 2 ^ 63 }

-- The writes to the state of `add`, without the new version.
unfoldable pub put_entry : Outpoint → Entry → Store → Store
put_entry key entry s = record s {
  utxos = insert key entry s.utxos;
  dirty = true;
  dirty_keys = add key s.dirty_keys;
  removed_keys = discard key s.removed_keys;
}

-- Those of `remove`, for a key that is there.
unfoldable pub drop_entry : Outpoint → Store → Store
drop_entry key s =
    if contains key s.utxos
    then record s {
      utxos = erase key s.utxos;
      dirty = true;
      dirty_keys = discard key s.dirty_keys;
      removed_keys = add key s.removed_keys;
    }
    else s

-- An OP_RETURN output is not kept.
unfoldable pub add_output : Outpoint → TxOut → Bool → ℕ → Store → Store
unfolding bump_version put_entry
add_output key tx_out is_coinbase block_height s =
    let entry : Entry = record {
      tx_out = tx_out;
      is_coinbase = is_coinbase;
      block_height = block_height;
    } in
    if is_opreturn tx_out.script_pubkey then s else bump_version (put_entry key entry s)

unfoldable pub remove : Outpoint → Store → Store
unfolding bump_version drop_entry
remove key s = if contains key s.utxos then bump_version (drop_entry key s) else s

-- `b.put` for the target keys that are in memory.
unfoldable pub put_keys : List Outpoint → Utxos → Utxos → Utxos
put_keys [] utxos disk = disk
put_keys (key ∷ keys) utxos disk = elim (lookup key utxos) [
  | none ↦ put_keys keys utxos disk
  | some entry ↦ insert key entry (put_keys keys utxos disk)
]

unfoldable pub delete_keys : List Outpoint → Utxos → Utxos
delete_keys [] disk = disk
delete_keys (key ∷ keys) disk = erase key (delete_keys keys disk)

-- The store after `_save_kv`.
unfoldable pub saved_disk : Bool → Store → Utxos
unfolding put_keys delete_keys
saved_disk rewrite s =
    if rewrite
    then put_keys (map (λ e. e.0) s.utxos) s.utxos []
    else delete_keys s.removed_keys (put_keys s.dirty_keys s.utxos s.disk)

unfoldable pub save : Bool → Store → Store
unfolding saved_disk
save force s = if not force && not s.dirty then s else record s {
  disk = saved_disk (force || s.rewrite_all) s;
  dirty = false;
  dirty_keys = [];
  removed_keys = [];
  rewrite_all = false;
}

unfoldable pub flush : Bool → Store → Store × Bool
unfolding save
flush force s = if not force && not s.dirty then (s, false) else (save force s, true)

-- `_load`: memory is read back from the store, unless something waits to be written. The disk
-- holds entries here: their struct encoding, and the short values and OP_RETURN outputs that `_load_kv`
-- skips, are left out.
unfoldable pub load : Bool → Store → Store
unfolding bump_version
load force s =
    if not force && s.dirty
    then s
    else bump_version (record s {
      utxos = s.disk;
      dirty = false;
      dirty_keys = [];
      removed_keys = [];
      rewrite_all = false;
    })
