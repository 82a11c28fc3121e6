-- ===== src/Utxo/Sync.antt =====
-- Memory against disk, for the operations of one output of src/tsarchain/storage/utxo_logic.
use graffiti_protocol.Base.{
  ℕ, ◌≡◌, refl, arith, Bool, true, false, [], none, lookup, contains, member, pair_key,
  lookup-insert, lookup-erase, member-add, member-discard, Bool-cases, inl, inr,
}
use graffiti_protocol.Ledger.{Outpoint, TxOut, is_opreturn}
use graffiti_protocol.Utxo.Store.{
  Entry, Store, bump_version, put_entry, drop_entry, add_output, remove, put_keys, saved_disk, save,
  flush,
}
use graffiti_protocol.Utxo.Disk.{lookup-put_keys, lookup-delete_keys, rewrite-AreSynced}

-- Where the disk can differ from memory is noted: a key that is neither dirty nor removed is the
-- same in both, a removed one is not in memory, and a dirty one is.
pub record IsTracked (s : Store) : Type 0 where
  pub agrees :
      s.rewrite_all ≡ false
      → (k : Outpoint) → member k s.dirty_keys ≡ false
      → member k s.removed_keys ≡ false
      → lookup k s.disk ≡ lookup k s.utxos
  pub gone :
      s.rewrite_all ≡ false
      → (k : Outpoint) → member k s.removed_keys ≡ true
      → lookup k s.utxos ≡ none
  pub held :
      s.rewrite_all ≡ false
      → (k : Outpoint) → member k s.dirty_keys ≡ true
      → contains k s.utxos ≡ true
  pub noted :
      s.dirty ≡ false → (s.rewrite_all ≡ false) × (s.dirty_keys ≡ []) × (s.removed_keys ≡ [])

-- Memory and disk hold the same outputs.
abbrev pub AreSynced : Store → Type 0
AreSynced s = (k : Outpoint) → lookup k s.disk ≡ lookup k s.utxos

put_entry-IsTracked :
    (key : Outpoint) (e : Entry) (s : Store) → IsTracked s → IsTracked (put_entry key e s)
unfolding put_entry
put_entry-IsTracked key e s h = record {
  agrees = λ r k d m. ground (
    arith,
    h.agrees r k,
    member-add key k s.dirty_keys,
    member-discard key k s.removed_keys,
    lookup-insert key k e s.utxos,
  );
  gone = λ r k m.
      ground
        (arith, h.gone r k, member-discard key k s.removed_keys, lookup-insert key k e s.utxos);
  held = λ r k m.
      ground (arith, h.held r k, member-add key k s.dirty_keys, lookup-insert key k e s.utxos);
  noted = λ z. cc;
}

drop_entry-IsTracked : (key : Outpoint) (s : Store) → IsTracked s → IsTracked (drop_entry key s)
unfolding drop_entry
drop_entry-IsTracked key s h = elim (Bool-cases (contains key s.utxos)) [
  | inr absent ↦ rw (absent, drop_entry) h
  | inl there ↦
      rw (there, drop_entry)
        (record {
          agrees = λ r k d m. ground (
            arith,
            h.agrees r k,
            member-add key k s.removed_keys,
            member-discard key k s.dirty_keys,
            lookup-erase key k s.utxos,
          );
          gone = λ r k m.
              ground
                (arith, h.gone r k, member-add key k s.removed_keys, lookup-erase key k s.utxos);
          held = λ r k m.
              ground
                (arith, h.held r k, member-discard key k s.dirty_keys, lookup-erase key k s.utxos);
          noted = λ z. cc;
        })
]

saved_disk-AreSynced :
    (s : Store)
    → IsTracked s
    → s.rewrite_all ≡ false
    → (k : Outpoint) → lookup k (saved_disk false s) ≡ lookup k s.utxos
unfolding saved_disk
saved_disk-AreSynced s h r k = ground (
  arith,
  h.agrees r k,
  h.gone r k,
  h.held r k,
  lookup-delete_keys k s.removed_keys (put_keys s.dirty_keys s.utxos s.disk),
  lookup-put_keys k s.dirty_keys s.utxos s.disk,
)

-- The state after a save that wrote the disk in step with memory.
saved : Bool → Store → Store
saved rewrite s = record s {
  disk = saved_disk rewrite s;
  dirty = false;
  dirty_keys = [];
  removed_keys = [];
  rewrite_all = false;
}

saved-IsTracked :
    (s : Store) (rewrite : Bool)
    → ((k : Outpoint) → lookup k (saved_disk rewrite s) ≡ lookup k s.utxos)
    → AreSynced (saved rewrite s) × IsTracked (saved rewrite s)
unfolding saved
saved-IsTracked s rewrite h = (
  h,
  record {
    agrees = λ _ k _ _. h k;
    gone = λ _ k e. ground arith;
    held = λ _ k e. ground arith;
    noted = λ _. (refl, refl, refl);
  },
)

clean-AreSynced : (s : Store) → IsTracked s → s.dirty ≡ false → AreSynced s
clean-AreSynced s h clean k = let (r, d, m) = h.noted clean in h.agrees r k (rw d refl) (rw m refl)

save_clean : (s : Store) → s.dirty ≡ false → save false s ≡ s
unfolding save
save_clean s clean = ground arith

save_dirty : (s : Store) (b : Bool) → s.dirty ≡ true → s.rewrite_all ≡ b → save false s ≡ saved b s
unfolding save saved
save_dirty s b dirty e = ground arith

save_forced : (s : Store) → save true s ≡ saved true s
unfolding save saved
save_forced s = refl

save-IsTracked :
    (force : Bool) (s : Store) → IsTracked s → AreSynced (save force s) × IsTracked (save force s)
save-IsTracked true s h = rw (save_forced s) (saved-IsTracked s true (rewrite-AreSynced s))
save-IsTracked false s h = elim (Bool-cases s.dirty) [
  | inr clean ↦ rw (save_clean s clean) (clean-AreSynced s h clean, h)
  | inl dirty ↦ elim (Bool-cases s.rewrite_all) [
    | inl all ↦ rw (save_dirty s true dirty all) (saved-IsTracked s true (rewrite-AreSynced s))
    | inr part ↦
        rw (save_dirty s false dirty part) (saved-IsTracked s false (saved_disk-AreSynced s h part))
  ]
]

save-utxos : (force : Bool) (s : Store) → (save force s).utxos ≡ s.utxos
unfolding save
save-utxos force s = ground arith

flush-save : (force : Bool) (s : Store) → (flush force s).0 ≡ save force s
unfolding flush save
flush-save force s = ground arith

bump_version-IsTracked : (s : Store) → IsTracked s → IsTracked (bump_version s)
unfolding bump_version
bump_version-IsTracked s h = record {
  agrees = h.agrees;
  gone = h.gone;
  held = h.held;
  noted = h.noted;
}

add_output-IsTracked :
    (s : Store)
    → IsTracked s
    → (key : Outpoint) (o : TxOut) (cb : Bool) (height : ℕ)
    → IsTracked (add_output key o cb height s)
unfolding add_output
add_output-IsTracked s h key o cb height =
    let e : Entry = record { tx_out = o; is_coinbase = cb; block_height = height } in
    elim (Bool-cases (is_opreturn o.script_pubkey)) [
      | inl skipped ↦ rw skipped h
      | inr kept ↦
          rw kept (bump_version-IsTracked (put_entry key e s) (put_entry-IsTracked key e s h))
    ]

remove_absent : (key : Outpoint) (s : Store) → contains key s.utxos ≡ false → remove key s ≡ s
unfolding remove
remove_absent key s absent = ground arith

remove_there :
    (key : Outpoint) (s : Store)
    → contains key s.utxos ≡ true
    → remove key s ≡ bump_version (drop_entry key s)
unfolding remove
remove_there key s there = ground arith

remove-IsTracked : (s : Store) → IsTracked s → (key : Outpoint) → IsTracked (remove key s)
remove-IsTracked s h key = elim (Bool-cases (contains key s.utxos)) [
  | inr absent ↦ rw (remove_absent key s absent) h
  | inl there ↦
      rw (remove_there key s there)
        (bump_version-IsTracked (drop_entry key s) (drop_entry-IsTracked key s h))
]

-- From a store whose changes are noted, `add`, `remove` and `flush` lead to such a store, and after
-- the flush, forced or not, the disk holds exactly the outputs in memory, which it leaves alone.
pub operations-IsTracked :
    (s : Store) (key : Outpoint) (o : TxOut) (cb : Bool) (height : ℕ) (force : Bool)
    → IsTracked s
    → IsTracked (add_output key o cb height s)
      × IsTracked (remove key s)
      × IsTracked (flush force s).0
      × AreSynced (flush force s).0
      × ((flush force s).0.utxos ≡ s.utxos)
operations-IsTracked s key o cb height force h =
    let (synced, tracked) = save-IsTracked force s h in
    (
      add_output-IsTracked s h key o cb height,
      remove-IsTracked s h key,
      rw (flush-save force s) tracked,
      rw (flush-save force s) synced,
      rw (flush-save force s) (save-utxos force s),
    )
