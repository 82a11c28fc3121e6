-- ===== src/Mining/Apart.antt =====
-- What the transactions that a miner takes have in common: no output, and at most one post.
use graffiti_protocol.Base.{
  ℕ, ◌+◌, ◌≤◌, ◌≡◌, ◌⊎◌, inl, inr, refl, arith, Bool, true, false, List, [], ◌∷◌, none, some, any,
  eqb, ◌&&◌, ◌||◌, if◌then◌else◌, sum_by, Bool-cases, Option-cases, member, add, member-add,
  pair_key, pair_eqb_iff,
}
use graffiti_protocol.Ledger.{Tx, TxIn, Block, Outpoint}
use graffiti_protocol.Utxo.{Utxos}
use graffiti_protocol.Graffiti.{Text}
use graffiti_protocol.Chain.Native.{Native}
use graffiti_protocol.Validation.{Addresses}
use graffiti_protocol.Mempool.Rules.{Answer, accepted, Answer-cases}
use graffiti_protocol.Mining.Posts.{first_paid, is_graffiti_post}
use graffiti_protocol.Mining.Template.{
  Coinbases, apply_tx_to_utxoset, note_used, is_used, collect, build_candidate_block,
}
use graffiti_protocol.Mining.Paid.{candidate_parts}

-- An input spends the output.
abbrev pub spends : Outpoint → Tx → Bool
spends k tx = any (λ (txin : TxIn). pair_key.same (txin.prev_txid, txin.vout) k) tx.inputs

-- No output is spent by two of the transactions.
abbrev pub AreApart : List Tx → Type 0
AreApart [] = Unit {0}
AreApart (tx ∷ txs) =
    ((k : Outpoint) → spends k tx ≡ true → any (spends k) txs ≡ false) × AreApart txs

abbrev input_spends : Outpoint → List TxIn → Bool
input_spends k inputs = any (λ (txin : TxIn). pair_key.same (txin.prev_txid, txin.vout) k) inputs

member-note_used :
    (k : Outpoint) (inputs : List TxIn) (used : List Outpoint)
    → member k (note_used inputs used) ≡ (input_spends k inputs || member k used)
unfolding note_used
member-note_used k [] used = refl
member-note_used k (txin ∷ inputs) used =
    let key : Outpoint = (txin.prev_txid, txin.vout) in
    ground (arith, member-note_used k inputs (add key used), member-add key k used)

unused_spends :
    (k : Outpoint) (inputs : List TxIn) (used : List Outpoint)
    → is_used used inputs ≡ false
    → member k used ≡ true
    → input_spends k inputs ≡ false
unused_spends k [] used h m = refl
unused_spends k (txin ∷ inputs) used h m =
    ground (arith, pair_eqb_iff (txin.prev_txid, txin.vout) k, unused_spends k inputs used)

module _ (t : Text) (a : Addresses) where
  -- A transaction with a post that pays its pool.
  abbrev pub post_count : List Tx → ℕ
  post_count txs =
      sum_by
        (λ (tx : Tx). elim (first_paid t a tx.outputs tx.outputs) [
          | none ↦ 0
          | some art_id ↦ if eqb art_id 0 then 0 else 1
        ])
        txs

  module _ (validate : Tx → Utxos → Answer ℕ) where
    -- What taking one transaction comes to: it is passed over, or it goes in front of the rest.
    collect-step :
        (tx : Tx) (txs : List Tx) (utxos : Utxos) (used : List Outpoint) (seen : Bool) (r : List Tx)
        → collect t a validate (tx ∷ txs) utxos used seen ≡ some r
        → (collect t a validate txs utxos used seen ≡ some r)
          ⊎ (fee : ℕ) × (b : Bool) × (r' : List Tx) × (is_used used tx.inputs ≡ false)
            × (is_graffiti_post t a tx ≡ some b)
            × ((b && seen) ≡ false)
            × (collect t a validate txs
                  (apply_tx_to_utxoset tx utxos)
                  (note_used tx.inputs used)
                  (b || seen)
                ≡ some r')
            × (r ≡ record tx { fee = fee } ∷ r')
    unfolding collect
    collect-step tx txs utxos used seen r h = elim (Bool-cases (is_used used tx.inputs)) [
      | inl old ↦ inl (ground arith)
      | inr fresh ↦ elim (Answer-cases (validate tx utxos)) [
        | inr (inl (reason, refused)) ↦ inl (ground arith)
        | inr (inr raises) ↦ absurd (ground arith)
        | inl (fee, fine) ↦ elim (Option-cases (is_graffiti_post t a tx)) [
          | inl unread ↦ absurd (ground arith)
          | inr (b, read) ↦ elim (Bool-cases (b && seen)) [
            | inl second ↦ inl (ground arith)
            | inr first ↦
                elim (Option-cases (
                  collect t a validate txs (apply_tx_to_utxoset tx utxos) (note_used tx.inputs used)
                    (b || seen))) [
                      | inl fails ↦ absurd (ground arith)
                      | inr (r', rest) ↦ inr (fee, b, r', fresh, read, first, rest, ground arith)
                    ]
          ]
        ]
      ]
    ]

    -- What is used is not spent again.
    collect_avoids :
        (txs : List Tx) (utxos : Utxos) (used : List Outpoint) (seen : Bool) (r : List Tx)
        (k : Outpoint)
        → collect t a validate txs utxos used seen ≡ some r
        → member k used ≡ true
        → any (spends k) r ≡ false
    collect_avoids [] utxos used seen r k h m = unfold collect in ground arith
    collect_avoids (tx ∷ txs) utxos used seen r k h m =
        elim (collect-step tx txs utxos used seen r h) [
          | inl passed_over ↦ collect_avoids txs utxos used seen r k passed_over m
          | inr (fee, b, r', fresh, read, first, rest, same) ↦
              let still : member k (note_used tx.inputs used) ≡ true =
                ground (arith, member-note_used k tx.inputs used) in
              let others =
                collect_avoids txs (apply_tx_to_utxoset tx utxos) (note_used tx.inputs used)
                  (b || seen) r' k rest still in
              rw same (ground (arith, unused_spends k tx.inputs used, others))
        ]

    collect-AreApart :
        (txs : List Tx) (utxos : Utxos) (used : List Outpoint) (seen : Bool) (r : List Tx)
        → collect t a validate txs utxos used seen ≡ some r
        → AreApart r
    collect-AreApart [] utxos used seen r h =
        let e : r ≡ [] = unfold collect in ground arith in rw e tt
    collect-AreApart (tx ∷ txs) utxos used seen r h =
        elim (collect-step tx txs utxos used seen r h) [
          | inl passed_over ↦ collect-AreApart txs utxos used seen r passed_over
          | inr (fee, b, r', fresh, read, first, rest, same) ↦
              let utxos' = apply_tx_to_utxoset tx utxos in
              let used' = note_used tx.inputs used in
              rw same (
                (λ k own.
                    collect_avoids txs utxos' used' (b || seen) r' k rest
                      (ground (arith, member-note_used k tx.inputs used))),
                collect-AreApart txs utxos' used' (b || seen) r' rest,
              )
        ]

    one_post_lem :
        (tx : Tx) (b : Bool)
        → is_graffiti_post t a tx ≡ some b
        → post_count (tx ∷ []) ≡ (if b then 1 else 0)
    unfolding is_graffiti_post
    one_post_lem tx b h = elim (Option-cases (first_paid t a tx.outputs tx.outputs)) [
      | inl unread ↦ absurd (ground arith)
      | inr (art_id, read) ↦ ground arith
    ]

    pub collect-post_count :
        (txs : List Tx) (utxos : Utxos) (used : List Outpoint) (seen : Bool) (r : List Tx)
        → collect t a validate txs utxos used seen ≡ some r
        → post_count r + (if seen then 1 else 0) ≤ 1
    collect-post_count [] utxos used seen r h =
        let e : r ≡ [] = unfold collect in ground arith in rw e (ground arith)
    collect-post_count (tx ∷ txs) utxos used seen r h =
        elim (collect-step tx txs utxos used seen r h) [
          | inl passed_over ↦ collect-post_count txs utxos used seen r passed_over
          | inr (fee, b, r', fresh, read, first, rest, same) ↦
              let ih =
                collect-post_count txs (apply_tx_to_utxoset tx utxos) (note_used tx.inputs used)
                  (b || seen) r' rest in
              let own = one_post_lem tx b read in rw same (ground (arith, ih, own))
        ]

    -- Nothing is used before the first transaction.
    no_input_used : (inputs : List TxIn) → is_used [] inputs ≡ false
    no_input_used [] = refl
    no_input_used (txin ∷ inputs) = ground (arith, no_input_used inputs)

    -- The first transaction is taken if it is accepted.
    pub collect_front :
        (tx : Tx) (txs : List Tx) (utxos : Utxos) (fee : ℕ) (r : List Tx)
        → validate tx utxos ≡ accepted fee
        → collect t a validate (tx ∷ txs) utxos [] false ≡ some r
        → (r' : List Tx) × (r ≡ record tx { fee = fee } ∷ r')
    unfolding collect
    collect_front tx txs utxos fee r fine h =
        let fresh = no_input_used tx.inputs in
        elim (Option-cases (is_graffiti_post t a tx)) [
          | inl unread ↦ absurd (ground arith)
          | inr (b, read) ↦
              elim (Option-cases (
                collect t a validate txs (apply_tx_to_utxoset tx utxos) (note_used tx.inputs [])
                  (b || false))) [
                    | inl fails ↦ absurd (ground arith)
                    | inr (r', rest) ↦ (r', ground arith)
                  ]
        ]

    -- The transactions of a candidate block, after its coinbase, spend no output twice between two of
    -- them, and at most one of them has a post that pays its pool, whatever the mempool's check accepts.
    pub candidate-AreApart :
        (c : Coinbases) (native : Native) (miner_address reward : ℕ) (chain : List Block)
        (utxos : Utxos) (pool : List Tx) (block : Block)
        → build_candidate_block c native t a validate miner_address reward chain utxos pool
          ≡ some block
        → (cb : Tx) × (txs : List Tx) × (block.transactions ≡ cb ∷ txs)
          × AreApart txs
          × (post_count txs ≤ 1)
    candidate-AreApart c native miner_address reward chain utxos pool block h =
        let (txs, art_id, cb, e, s, p, these, height) =
          candidate_parts c native t a validate miner_address reward chain utxos pool block h in
        let one = collect-post_count pool utxos [] false txs e in
        (cb, txs, these, collect-AreApart pool utxos [] false txs e, ground (arith, one))
