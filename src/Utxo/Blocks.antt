-- ===== src/Utxo/Blocks.antt =====
-- Memory against disk, for the operations of a block of src/tsarchain/storage/utxo_logic/validate.py.
use graffiti_protocol.Base.{
  ℕ, ◌≡◌, refl, sym, ap, ◌∙◌, arith, Bool, true, false, List, [], ◌∷◌, Option, none, some,
  if◌then◌else◌, lookup, contains, pair_key, pair_eqb_iff, ◌==◌, lookup-insert, lookup-erase,
}
use graffiti_protocol.Ledger.{Outpoint, TxOut, Tx, Block, is_opreturn}
use graffiti_protocol.Utxo.Store.{
  Entry, Utxos, Store, bump_version, put_entry, drop_entry, add_output, save, saved_disk, flush,
}
use graffiti_protocol.Utxo.Update.{
  Op, put, delete, apply_op, apply_ops, record_events, apply_native_ops, update, rebuild_blocks,
  rebuild_from_chain,
}
use graffiti_protocol.Utxo.Disk.{rewrite-AreSynced}
use graffiti_protocol.Utxo.Sync.{AreSynced}

-- What a list of changes makes of the entry of one key.
abbrev pub entry_after : List Op → Outpoint → Option Entry → Option Entry
entry_after [] k o = o
entry_after (put j e ∷ ops) k o = entry_after ops k (if j == k then some e else o)
entry_after (delete j ∷ ops) k o = entry_after ops k (if j == k then none else o)

-- The store's own `apply_utxo_ops` makes each change in turn.
abbrev pub AppliesOps : (Utxos → List Op → Utxos) → Type 0
AppliesOps native_apply =
    (disk : Utxos) (ops : List Op) (k : Outpoint)
    → lookup k (native_apply disk ops) ≡ entry_after ops k (lookup k disk)

absent_after : (j k : Outpoint) (u : Utxos) → contains j u ≡ false → j ≡ k → lookup k u ≡ none
absent_after j k u h e = rw (← e) ground arith

apply_op-utxos :
    (op : Op) (s : Store) (k : Outpoint)
    → lookup k (apply_op op s).utxos ≡ entry_after (op ∷ []) k (lookup k s.utxos)
unfolding apply_op put_entry drop_entry
apply_op-utxos (put j e) s k = lookup-insert j k e s.utxos
apply_op-utxos (delete j) s k =
    ground (arith, lookup-erase j k s.utxos, pair_eqb_iff j k, absent_after j k s.utxos)

apply_op-disk : (op : Op) (s : Store) → (apply_op op s).disk ≡ s.disk
unfolding apply_op put_entry drop_entry
apply_op-disk (put j e) s = refl
apply_op-disk (delete j) s = ground arith

apply_ops-disk : (ops : List Op) (s : Store) → (apply_ops ops s).disk ≡ s.disk
unfolding apply_ops
apply_ops-disk [] s = refl
apply_ops-disk (op ∷ ops) s = apply_ops-disk ops (apply_op op s) ∙ apply_op-disk op s

entry_after-step :
    (op : Op) (ops : List Op) (k : Outpoint) (o : Option Entry)
    → entry_after (op ∷ ops) k o ≡ entry_after ops k (entry_after (op ∷ []) k o)
entry_after-step (put j e) ops k o = refl
entry_after-step (delete j) ops k o = refl

apply_ops-utxos :
    (ops : List Op) (s : Store) (k : Outpoint)
    → lookup k (apply_ops ops s).utxos ≡ entry_after ops k (lookup k s.utxos)
unfolding apply_ops
apply_ops-utxos [] s k = refl
apply_ops-utxos (op ∷ ops) s k =
    rw (apply_ops-utxos ops (apply_op op s) k, apply_op-utxos op s k)
      (sym (entry_after-step op ops k (lookup k s.utxos)))

apply_native_ops-parts :
    (native_apply : Utxos → List Op → Utxos) (ops : List Op) (s : Store)
    → ((apply_native_ops native_apply ops s).utxos ≡ (apply_ops ops s).utxos)
      × ((apply_native_ops native_apply ops s).disk ≡ native_apply s.disk ops)
      × ((apply_native_ops native_apply ops s).dirty ≡ false)
unfolding apply_native_ops bump_version
apply_native_ops-parts native_apply ops s = (refl, rw (apply_ops-disk ops s) refl, refl)

record_events-parts :
    (txs : List Tx) (height : ℕ) (s : Store)
    → ((record_events txs height s).utxos ≡ s.utxos) × ((record_events txs height s).disk ≡ s.disk)
unfolding record_events
record_events-parts [] height s = (refl, refl)
record_events-parts (tx ∷ txs) height s = record_events-parts txs height _

add_output-lookup :
    (s : Store) (key : Outpoint) (o : TxOut) (cb : Bool) (height : ℕ)
    → is_opreturn o.script_pubkey ≡ false
    → (lookup key (add_output key o cb height s).utxos
        ≡ some (record { tx_out = o; is_coinbase = cb; block_height = height }))
      × ((add_output key o cb height s).disk ≡ s.disk)
unfolding add_output put_entry bump_version
add_output-lookup s key o cb height kept =
    let e : Entry = record { tx_out = o; is_coinbase = cb; block_height = height } in
    ground (arith, lookup-insert key key e s.utxos, pair_eqb_iff key key)

flush_clean : (s : Store) → s.dirty ≡ false → (flush false s).0 ≡ s
unfolding flush
flush_clean s clean = ground arith

rebuilt_parts :
    (blocks : List Block) (s : Store)
    → (r : Store) × ((rebuild_from_chain blocks s).utxos ≡ r.utxos)
      × ((rebuild_from_chain blocks s).disk ≡ saved_disk true r)
unfolding rebuild_from_chain save bump_version
rebuilt_parts blocks s =
    let cleared : Store = record s {
      utxos = [];
      dirty_keys = [];
      removed_keys = [];
      rewrite_all = true;
    } in
    let r : Store = record (rebuild_blocks blocks cleared) { dirty = true } in (r, refl, refl)

-- After a rebuild from the chain, memory and disk hold the same outputs, whatever they held before.
rebuild_from_chain-AreSynced :
    (blocks : List Block) (s : Store) → AreSynced (rebuild_from_chain blocks s)
rebuild_from_chain-AreSynced blocks s k =
    let (r, u, d) = rebuilt_parts blocks s in rw (u, d) (rewrite-AreSynced r k)

-- Some change is to this key.
abbrev mentions : Outpoint → List Op → Bool
mentions k [] = false
mentions k (put j _ ∷ ops) = if j == k then true else mentions k ops
mentions k (delete j ∷ ops) = if j == k then true else mentions k ops

entry_after-unmentioned :
    (ops : List Op) (k : Outpoint) (o : Option Entry)
    → mentions k ops ≡ false
    → entry_after ops k o ≡ o
entry_after-unmentioned [] k o h = refl
entry_after-unmentioned (put j e ∷ ops) k o h = ground (arith, entry_after-unmentioned ops k o)
entry_after-unmentioned (delete j ∷ ops) k o h = ground (arith, entry_after-unmentioned ops k o)

module _ (native_apply : Utxos → List Op → Utxos) where
  -- If the store makes the changes that it is given, then after a block on top of a state in which
  -- memory and disk agree, they agree.
  pub update-AreSynced :
      (build_ops : List Tx → ℕ → List Op) (txs : List Tx) (height : ℕ) (s : Store)
      → AppliesOps native_apply
      → AreSynced s
      → AreSynced (update build_ops native_apply txs height s)
  unfolding update
  update-AreSynced build_ops [] height s applies h = h
  update-AreSynced build_ops (tx ∷ txs) height s applies h = λ k.
      let ops = build_ops (tx ∷ txs) height in
      let t = apply_native_ops native_apply ops s in
      let (u, d) = record_events-parts (tx ∷ txs) height t in
      let (u', d', _) = apply_native_ops-parts native_apply ops s in
      rw (u, d, u', d', applies s.disk ops k, apply_ops-utxos ops s k, h k) refl

  -- An output that `add` puts in memory before a block, and that the block does not change, is still in
  -- memory after the block, but the next flush does not write it: the disk keeps what it had.
  flush_misses_added :
      (ops : List Op) (s : Store) (key : Outpoint) (o : TxOut) (cb : Bool) (height : ℕ)
      → AppliesOps native_apply
      → is_opreturn o.script_pubkey ≡ false
      → mentions key ops ≡ false
      → (lookup key
            (flush false (apply_native_ops native_apply ops (add_output key o cb height s))).0.utxos
          ≡ some (record { tx_out = o; is_coinbase = cb; block_height = height }))
        × (lookup key
              (flush false
                (apply_native_ops native_apply ops (add_output key o cb height s))).0.disk
            ≡ lookup key s.disk)
  flush_misses_added ops s key o cb height applies kept other =
      let s' = add_output key o cb height s in
      let (u, d, clean) = apply_native_ops-parts native_apply ops s' in
      let (added, same) = add_output-lookup s key o cb height kept in
      let t = apply_native_ops native_apply ops s' in
      let e = flush_clean t clean in
      (
        ap (λ x. lookup key x.utxos) e
            ∙ ap (lookup key) u
            ∙ apply_ops-utxos ops s' key
            ∙ entry_after-unmentioned ops key (lookup key s'.utxos) other
            ∙ added,
        ap (λ x. lookup key x.disk) e
            ∙ ap (lookup key) d
            ∙ applies s'.disk ops key
            ∙ entry_after-unmentioned ops key (lookup key s'.disk) other
            ∙ ap (lookup key) same,
      )
