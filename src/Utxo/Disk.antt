-- ===== src/Utxo/Disk.antt =====
-- What `_save_kv` of src/tsarchain/storage/utxo_logic/database.py leaves under each key.
use graffiti_protocol.Base.{
  ◌≡◌, refl, arith, true, List, [], ◌∷◌, none, map, if◌then◌else◌, lookup, ◌&&◌, contains, member,
  pair_key, pair_eqb_iff, lookup-insert, lookup-erase, Option-cases, inl, inr,
}
use graffiti_protocol.Ledger.{Outpoint}
use graffiti_protocol.Utxo.Store.{Utxos, Store, put_keys, delete_keys, saved_disk}

pub lookup-put_keys :
    (k : Outpoint) (keys : List Outpoint) (utxos disk : Utxos)
    → lookup k (put_keys keys utxos disk)
      ≡ (if member k keys && contains k utxos then lookup k utxos else lookup k disk)
unfolding put_keys
lookup-put_keys k [] utxos disk = refl
lookup-put_keys k (j ∷ keys) utxos disk = elim (Option-cases (lookup j utxos)) [
  | inl absent ↦ ground (arith, pair_eqb_iff j k, lookup-put_keys k keys utxos disk)
  | inr (e, there) ↦ ground (
    arith,
    pair_eqb_iff j k,
    lookup-put_keys k keys utxos disk,
    lookup-insert j k e (put_keys keys utxos disk),
  )
]

pub lookup-delete_keys :
    (k : Outpoint) (keys : List Outpoint) (disk : Utxos)
    → lookup k (delete_keys keys disk) ≡ (if member k keys then none else lookup k disk)
unfolding delete_keys
lookup-delete_keys k [] disk = refl
lookup-delete_keys k (j ∷ keys) disk =
    ground (arith, lookup-delete_keys k keys disk, lookup-erase j k (delete_keys keys disk))

keys_complete : (k : Outpoint) (u : Utxos) → member k (map (λ e. e.0) u) ≡ contains k u
keys_complete k [] = refl
keys_complete k ((j, e) ∷ u) = ground (arith, keys_complete k u)

-- A whole rewrite leaves on disk what is in memory.
pub rewrite-AreSynced : (s : Store) (k : Outpoint) → lookup k (saved_disk true s) ≡ lookup k s.utxos
unfolding saved_disk
rewrite-AreSynced s k =
    ground (arith, lookup-put_keys k (map (λ e. e.0) s.utxos) s.utxos [], keys_complete k s.utxos)
