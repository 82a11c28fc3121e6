-- ===== src/Validation/Snapshot.antt =====
-- The snapshot of spent outputs that the native check is given, and the bounds on signature
-- operations.
use graffiti_protocol.Base.{
  ℕ, ◌+◌, ◌≤◌, ◌≡◌, ◌⊎◌, arith, inl, inr, true, List, [], ◌∷◌, none, some, leb, if◌then◌else◌,
  Bool-cases, Option-cases, sum_by, lookup, insert, member, add, pair_key, nat_key, lookup-insert,
  leb→le,
}
use graffiti_protocol.Ledger.{Tx, TxIn, Outpoint}
use graffiti_protocol.Utxo.{Entry, Utxos}
use graffiti_protocol.Script.{Bytes}
use graffiti_protocol.Validation.Reason.{Checked-cases, passed}
use graffiti_protocol.Validation.Context.{
  max_sigops_per_tx, max_sigops_per_block, sigops_count, sigops_budget, check_sigops_budget,
}
use graffiti_protocol.Validation.Amounts.{snapshot_inputs, snapshot_txs, prepare_tx_snapshot}

-- An input spends an output of an earlier transaction of the block, or one whose entry is in both.
abbrev IsKnown : Utxos → Utxos → List ℕ → TxIn → Type 0
IsKnown utxos snapshot processed vin =
    (member vin.prev_txid processed ≡ true)
    ⊎ ((e : Entry) × (lookup (vin.prev_txid, vin.vout) utxos ≡ some e)
        × (lookup (vin.prev_txid, vin.vout) snapshot ≡ some e))

abbrev AreKnown : Utxos → Utxos → List ℕ → List TxIn → Type 0
AreKnown utxos snapshot processed [] = Unit {0}
AreKnown utxos snapshot processed (vin ∷ inputs) =
    IsKnown utxos snapshot processed vin × AreKnown utxos snapshot processed inputs

-- So for the inputs of every transaction that is no coinbase.
abbrev pub IsCovered : Utxos → Utxos → List ℕ → List Tx → Type 0
IsCovered utxos snapshot processed [] = Unit {0}
IsCovered utxos snapshot processed (tx ∷ txs) =
    (if tx.is_coinbase then Unit {0} else AreKnown utxos snapshot processed tx.inputs)
    × IsCovered utxos snapshot (add tx.txid processed) txs

-- Every entry of the snapshot is the store's.
abbrev IsPart : Utxos → Utxos → Type 0
IsPart utxos snapshot =
    (k : Outpoint) (e : Entry) → lookup k snapshot ≡ some e → lookup k utxos ≡ some e

-- What one snapshot has, the other has too.
abbrev Grows : Utxos → Utxos → Type 0
Grows s s' = (k : Outpoint) (e : Entry) → lookup k s ≡ some e → lookup k s' ≡ some e

insert-IsPart :
    (utxos s : Utxos) (key : Outpoint) (entry : Entry)
    → lookup key utxos ≡ some entry
    → IsPart utxos s
    → IsPart utxos (insert key entry s)
insert-IsPart utxos s key entry found part k e h =
    ground (arith, lookup-insert key k entry s, part k e, pair_key.same_iff key k)

insert-Grows :
    (utxos s : Utxos) (key : Outpoint) (entry : Entry)
    → lookup key s ≡ none
    → Grows s (insert key entry s)
insert-Grows utxos s key entry fresh k e h =
    ground (arith, lookup-insert key k entry s, pair_key.same_iff key k)

inputs-Grows :
    (utxos : Utxos) (processed : List ℕ) (inputs : List TxIn) (s s' : Utxos)
    → snapshot_inputs utxos processed inputs s ≡ passed s'
    → IsPart utxos s
    → Grows s s' × IsPart utxos s'
unfolding snapshot_inputs
inputs-Grows utxos processed [] s s' h part =
    (λ k e q. ground arith, λ k e q. ground (arith, part k e))
inputs-Grows utxos processed (vin ∷ inputs) s s' h part =
    elim (Bool-cases (member vin.prev_txid processed)) [
      | inl own ↦ inputs-Grows utxos processed inputs s s' (ground arith) part
      | inr foreign ↦ elim (Option-cases (lookup (vin.prev_txid, vin.vout) s)) [
        | inr (old, there) ↦ inputs-Grows utxos processed inputs s s' (ground arith) part
        | inl fresh ↦ elim (Option-cases (lookup (vin.prev_txid, vin.vout) utxos)) [
          | inl missing ↦ absurd (ground arith)
          | inr (entry, found) ↦
              let key : Outpoint = (vin.prev_txid, vin.vout) in
              let (g, p) =
                inputs-Grows utxos processed inputs (insert key entry s) s' (ground arith)
                  (insert-IsPart utxos s key entry found part) in
              (λ k e q. g k e (insert-Grows utxos s key entry fresh k e q), p)
        ]
      ]
    ]

inputs-AreKnown :
    (utxos : Utxos) (processed : List ℕ) (inputs : List TxIn) (s s' final : Utxos)
    → snapshot_inputs utxos processed inputs s ≡ passed s'
    → IsPart utxos s
    → Grows s' final
    → AreKnown utxos final processed inputs
unfolding snapshot_inputs
inputs-AreKnown utxos processed [] s s' final h part grows = tt
inputs-AreKnown utxos processed (vin ∷ inputs) s s' final h part grows =
    let key : Outpoint = (vin.prev_txid, vin.vout) in
    elim (Bool-cases (member vin.prev_txid processed)) [
      | inl own ↦
          (inl own, inputs-AreKnown utxos processed inputs s s' final (ground arith) part grows)
      | inr foreign ↦ elim (Option-cases (lookup (vin.prev_txid, vin.vout) s)) [
        | inr (old, there) ↦
            let run : snapshot_inputs utxos processed inputs s ≡ passed s' = ground arith in
            let (g, p) = inputs-Grows utxos processed inputs s s' run part in
            (
              inr (old, part key old there, grows key old (g key old there)),
              inputs-AreKnown utxos processed inputs s s' final run part grows,
            )
        | inl fresh ↦ elim (Option-cases (lookup (vin.prev_txid, vin.vout) utxos)) [
          | inl missing ↦ absurd (ground arith)
          | inr (entry, found) ↦
              let more = insert-IsPart utxos s key entry found part in
              let run : snapshot_inputs utxos processed inputs (insert key entry s) ≡ passed s' =
                ground arith in
              let (g, p) = inputs-Grows utxos processed inputs (insert key entry s) s' run more in
              let there : lookup key (insert key entry s) ≡ some entry =
                ground (arith, lookup-insert key key entry s, pair_key.same_iff key key) in
              (
                inr (entry, found, grows key entry (g key entry there)),
                inputs-AreKnown utxos processed inputs (insert key entry s) s' final run more grows,
              )
        ]
      ]
    ]

txs-IsCovered :
    (utxos : Utxos) (processed : List ℕ) (txs : List Tx) (s final : Utxos)
    → snapshot_txs utxos processed txs s ≡ passed final
    → IsPart utxos s
    → Grows s final × IsCovered utxos final processed txs
unfolding snapshot_txs
txs-IsCovered utxos processed [] s final h part = (λ k e q. ground arith, tt)
txs-IsCovered utxos processed (tx ∷ txs) s final h part = elim (Bool-cases tx.is_coinbase) [
  | inl cb ↦
      let (g, c) = txs-IsCovered utxos (add tx.txid processed) txs s final (ground arith) part in
      (g, (rw cb tt, c))
  | inr plain ↦ elim (Checked-cases (snapshot_inputs utxos processed tx.inputs s)) [
    | inl (r, refusal) ↦ absurd (ground arith)
    | inr (s', run) ↦
        let (g, p) = inputs-Grows utxos processed tx.inputs s s' run part in
        let (g', c) = txs-IsCovered utxos (add tx.txid processed) txs s' final (ground arith) p in
        (
          λ k e q. g' k e (g k e q),
          (rw plain (inputs-AreKnown utxos processed tx.inputs s s' final run part g'), c),
        )
  ]
]

-- When the snapshot of a block is made, each input of a transaction that is no coinbase spends an
-- output of an earlier transaction of the block, or one that the store has, and then the snapshot has
-- the store's entry for it.
pub prepare_tx_snapshot-IsCovered :
    (utxos snapshot : Utxos) (txs : List Tx)
    → prepare_tx_snapshot utxos txs ≡ passed snapshot
    → IsCovered utxos snapshot [] txs
unfolding prepare_tx_snapshot
prepare_tx_snapshot-IsCovered utxos snapshot txs h =
    (txs-IsCovered utxos [] txs [] snapshot h (λ k e q. ground arith)).1

-- No transaction has more operations than its limit.
abbrev AreBounded : (Bytes → ℕ) → Utxos → List Tx → Type 0
AreBounded count utxos [] = Unit {0}
AreBounded count utxos (tx ∷ txs) =
    (sigops_count count utxos tx ≤ max_sigops_per_tx) × AreBounded count utxos txs

sigops_budget_lem :
    (count : Bytes → ℕ) (utxos : Utxos) (total : ℕ) (txs : List Tx)
    → sigops_budget count utxos total txs ≡ none
    → AreBounded count utxos txs
      × (total + sum_by (sigops_count count utxos) txs ≤ max_sigops_per_block)
unfolding sigops_budget
sigops_budget_lem count utxos total [] h = (tt, ground arith)
sigops_budget_lem count utxos total (tx ∷ txs) h =
    let so = sigops_count count utxos tx in
    elim (Bool-cases (leb so max_sigops_per_tx)) [
      | inl fits ↦
          let (each, all) = sigops_budget_lem count utxos (total + so) txs (ground arith) in
          ((leb→le so max_sigops_per_tx fits, each), omega (arith, all))
      | inr over ↦ absurd (ground arith)
    ]

-- A block within its budget has at most 6,000 signature operations in each transaction and 40,000 in
-- all, whatever the native counter says of a script.
check_sigops_budget-bound :
    (count : Bytes → ℕ) (utxos : Utxos) (txs : List Tx)
    → check_sigops_budget count utxos txs ≡ none
    → AreBounded count utxos txs × (sum_by (sigops_count count utxos) txs ≤ max_sigops_per_block)
unfolding check_sigops_budget
check_sigops_budget-bound count utxos txs h =
    let (each, all) = sigops_budget_lem count utxos 0 txs h in (each, omega (arith, all))
