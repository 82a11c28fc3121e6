-- ===== src/Utxo/Tests.antt =====
-- Small stores, and a key-value store that makes the changes one by one.
use graffiti_protocol.Base.{
  ℕ, length, lookup, none, ◌+◌, pair_key, arith, ◌≡◌, refl, true, false, List, [], ◌∷◌, insert,
  erase, lookup-insert, lookup-erase, ◌∙◌, ap,
}
use graffiti_protocol.Ledger.{TxOut, Tx}
use graffiti_protocol.Utxo.Addresses.{empty_index, total_of, index_entry, drop_index_entry}
use graffiti_protocol.Utxo.Balances.{drop_index_entry-index_entry}
use graffiti_protocol.Utxo.Store.{Entry, Utxos, Store, add_output, remove, flush}
use graffiti_protocol.Utxo.Update.{Op, put, delete, update}
use graffiti_protocol.Utxo.Sync.{IsTracked, AreSynced, operations-IsTracked}
use graffiti_protocol.Utxo.Blocks.{entry_after, AppliesOps, update-AreSynced}

abbrev applied : Utxos → List Op → Utxos
applied disk [] = disk
applied disk (put k e ∷ ops) = applied (insert k e disk) ops
applied disk (delete k ∷ ops) = applied (erase k disk) ops

applied-AppliesOps : AppliesOps applied
applied-AppliesOps disk [] k = refl
applied-AppliesOps disk (put j e ∷ ops) k =
    applied-AppliesOps (insert j e disk) ops k ∙ ap (entry_after ops k) (lookup-insert j k e disk)
applied-AppliesOps disk (delete j ∷ ops) k =
    applied-AppliesOps (erase j disk) ops k ∙ ap (entry_after ops k) (lookup-erase j k disk)

abbrev out : TxOut
out = record { amount = 5; script_pubkey = 0 ∷ 20 ∷ [] }

abbrev entry : Entry
entry = record { tx_out = out; is_coinbase = false; block_height = 1 }

abbrev start : Store
start = record {
  utxos = ((1, 0), entry) ∷ [];
  dirty = false;
  dirty_keys = [];
  removed_keys = [];
  rewrite_all = false;
  version = 0;
  disk = ((1, 0), entry) ∷ [];
  recorded = [];
}

start-IsTracked : IsTracked start
start-IsTracked = record {
  agrees = λ _ k _ _. refl;
  gone = λ _ k e. ground arith;
  held = λ _ k e. ground arith;
  noted = λ _. (refl, refl, refl);
}

operations-IsTracked_example :
    IsTracked (add_output (2, 0) out false 3 start)
    × IsTracked (remove (2, 0) start)
    × IsTracked (flush true start).0
    × AreSynced (flush true start).0
    × ((flush true start).0.utxos ≡ start.utxos)
operations-IsTracked_example = operations-IsTracked start (2, 0) out false 3 true start-IsTracked

abbrev tx : Tx
tx = record {
  txid = 2;
  is_coinbase = false;
  inputs = record { prev_txid = 1; vout = 0; script_sig = []; witness = [] } ∷ [];
  outputs = out ∷ [];
  fee = 0;
  block_id = none;
}

abbrev changes : List Op
changes = delete (1, 0) ∷ put (2, 0) entry ∷ []

update-AreSynced_example : AreSynced (update (λ _ _. changes) applied (tx ∷ []) 4 start)
update-AreSynced_example =
    update-AreSynced applied (λ _ _. changes) (tx ∷ []) 4 start applied-AppliesOps (λ k. refl)

-- A script in hex, as the number of its bytes.
abbrev hex : List ℕ → ℕ
hex = length

drop_index_entry-index_entry_example :
    let once = index_entry hex (1, 0) entry empty_index in
    let twice = index_entry hex (1, 0) entry once in
    (total_of (hex out.script_pubkey) (drop_index_entry (1, 0) once).totals
      ≡ total_of (hex out.script_pubkey) empty_index.totals)
    × (lookup (1, 0) (drop_index_entry (1, 0) twice).key_to_spk ≡ none)
    × (total_of (hex out.script_pubkey) (drop_index_entry (1, 0) twice).totals
        ≡ total_of (hex out.script_pubkey) empty_index.totals + out.amount)
drop_index_entry-index_entry_example =
    drop_index_entry-index_entry hex (1, 0) entry empty_index (ground arith)
