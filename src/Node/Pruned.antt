-- ===== src/Node/Pruned.antt =====
-- What `prune_stale_entries` leaves in the mempool.
use mathlib.Core.Path.{subst}
use graffiti_protocol.Base.{
  ℕ, ◌≡◌, ◌∙◌, ◌⊎◌, ap, sym, inl, inr, refl, arith, false, List, [], ◌∷◌, none, some, eqb,
  if◌then◌else◌, Dict, lookup, erase, lookup-erase, member, nat_key, eqb_iff, >>=-some, Bool-cases,
  Option-cases,
}
use graffiti_protocol.Ledger.{Tx}
use graffiti_protocol.Mempool.{TxPool, remove_fee_record, mark_dirty}
use graffiti_protocol.Mempool.Removal.{drop_tx_prevouts-pool}
use graffiti_protocol.Mempool.Rules.{Library, Answer, accepted, Answer-cases}
use graffiti_protocol.Node.Prune.{
  Waiting, revalidate, drop_one, drop_stale, mineable, reload_if_due, prune_entries,
  prune_stale_entries,
}

-- A transaction of the pool passes, and has the fee that its check gives.
abbrev pub IsKept : (Tx → Answer ℕ) → Dict ℕ Tx → ℕ → Tx → Type 0
IsKept validate pool txid tx =
    (old : Tx) × (fee : ℕ) × (lookup txid pool ≡ some old)
    × (validate old ≡ accepted fee)
    × (tx ≡ record old { fee = fee })

revalidate-IsKept :
    (validate : Tx → Answer ℕ) (pool kept : Dict ℕ Tx) (to_remove : List ℕ) (txid : ℕ) (tx : Tx)
    → revalidate validate pool ≡ some (kept, to_remove)
    → lookup txid kept ≡ some tx
    → member txid to_remove ≡ false
    → IsKept validate pool txid tx
unfolding revalidate
revalidate-IsKept validate [] kept to_remove txid tx h there stays = absurd (ground arith)
revalidate-IsKept validate ((t, x) ∷ pool) kept to_remove txid tx h there stays =
    let ((kept', to_remove'), rest, h1) =
      >>=-some (revalidate validate pool) _ (kept, to_remove) h in
    elim (Answer-cases (validate x)) [
      | inl (fee, fine) ↦ elim (Bool-cases (eqb t txid)) [
        | inl same ↦ (x, fee, ground arith, fine, ground arith)
        | inr other ↦
            let (old, fee', known, fine', e) =
              revalidate-IsKept validate pool kept' to_remove' txid tx rest (ground arith)
                (ground arith) in
            (old, fee', ground arith, fine', e)
      ]
      | inr (inl (r, refused)) ↦
          let (old, fee', known, fine', e) =
            revalidate-IsKept validate pool kept' to_remove' txid tx rest (ground arith)
              (ground arith) in
          (old, fee', ground arith, fine', e)
      | inr (inr raises) ↦ absurd (ground arith)
    ]

drop_one-lookup :
    (t : ℕ) (s : TxPool) (j : ℕ)
    → lookup j (drop_one t s).pool ≡ (if eqb t j then none else lookup j s.pool)
unfolding drop_one remove_fee_record
drop_one-lookup t s j = elim (Option-cases (lookup t s.pool)) [
  | inl gone ↦ ground (arith, eqb_iff t j)
  | inr (tx, there) ↦
      rw (there, drop_tx_prevouts-pool tx (record s { pool = erase t s.pool }))
        (lookup-erase t j s.pool)
]

drop_stale-lookup :
    (ids : List ℕ) (s : TxPool) (j : ℕ)
    → lookup j (drop_stale ids s).pool ≡ (if member j ids then none else lookup j s.pool)
unfolding drop_stale
drop_stale-lookup [] s j = refl
drop_stale-lookup (t ∷ ids) s j =
    ground (arith, drop_stale-lookup ids (drop_one t s) j, drop_one-lookup t s j)

module _ (lib : Library) (tip now : ℕ) where
  -- All that waits passes the check for the next block, and is as before up to its fee.
  abbrev pub IsPruned : Waiting → Waiting → Type 0
  IsPruned w w' =
      (txid : ℕ) (tx : Tx)
      → lookup txid w'.pool.pool ≡ some tx
      → IsKept (mineable lib tip now w w'.store) w.pool.pool txid tx

  prune_entries-IsPruned :
      (version : ℕ) (w w' : Waiting)
      → prune_entries lib tip now version w ≡ some w'
      → (w'.last_prune_version ≡ some version) × IsPruned w w'
  unfolding prune_entries mark_dirty
  prune_entries-IsPruned version w w' h =
      let ((kept, to_remove), checked, h1) =
        >>=-some (revalidate (mineable lib tip now w w.store) w.pool.pool) _ w' h in
      let store : w'.store ≡ w.store = ground arith in
      let pool : w'.pool.pool ≡ (drop_stale to_remove (record w.pool { pool = kept })).pool =
        ground arith in
      (
        ground arith,
        λ txid tx there.
            let found = drop_stale-lookup to_remove (record w.pool { pool = kept }) txid in
            let left : lookup txid (drop_stale to_remove (record w.pool { pool = kept })).pool
                ≡ some tx =
              ap (lookup txid) (sym pool) ∙ there in
            let stays : member txid to_remove ≡ false = ground arith in
            subst (λ s. IsKept (mineable lib tip now w s) w.pool.pool txid tx) (sym store)
              (revalidate-IsKept (mineable lib tip now w w.store) w.pool.pool kept to_remove txid tx
                checked (ground arith) stays),
      )

  reload_lem :
      (w : Waiting)
      → ((reload_if_due lib tip now w).pool ≡ w.pool)
        × ((reload_if_due lib tip now w).registry ≡ w.registry)
  unfolding reload_if_due
  reload_lem w = ground arith

  reload-IsPruned : (w w' : Waiting) → IsPruned (reload_if_due lib tip now w) w' → IsPruned w w'
  reload-IsPruned w w' all = λ txid tx there.
      let (pool, registry) = reload_lem w in
      let (old, fee, known, fine, e) = all txid tx there in
      (
        old,
        fee,
        ap (λ p. lookup txid p.pool) (sym pool) ∙ known,
        subst (λ r. mineable lib tip now (record w { registry = r }) w'.store old ≡ accepted fee)
            registry fine,
        e,
      )

  -- `prune_stale_entries` does nothing where the store of outputs has the version of the last time.
  -- Otherwise it notes the version, and then every transaction that waits has waited before, passes
  -- the mempool's check for the next block against the store as it then is, and has the fee that the
  -- check gives.
  pub prune_stale_entries-IsPruned :
      (w w' : Waiting)
      → prune_stale_entries lib tip now w ≡ some w'
      → (w.last_prune_version ≡ some w.store.version) × (w' ≡ w)
        ⊎ (w'.last_prune_version ≡ some w.store.version) × IsPruned w w'
  unfolding prune_stale_entries
  prune_stale_entries-IsPruned w w' h =
      let pruned : prune_entries lib tip now w.store.version (reload_if_due lib tip now w) ≡ some w'
          → (w'.last_prune_version ≡ some w.store.version) × IsPruned w w' =
        λ q.
          let (noted, all) =
            prune_entries-IsPruned w.store.version (reload_if_due lib tip now w) w' q in
          (noted, reload-IsPruned w w' all) in
      elim (Option-cases w.last_prune_version) [
        | inl never ↦ inr (pruned (ground arith))
        | inr (version, last) ↦ elim (Bool-cases (eqb version w.store.version)) [
          | inl same ↦ inl (ground arith, ground arith)
          | inr changed ↦ inr (pruned (ground arith))
        ]
      ]
