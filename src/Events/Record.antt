-- ===== src/Events/Record.antt =====
-- `_record_graffiti_event` and the handlers of the three events. A handler gives the registry after
-- it, or `none` where a conversion of a field raises. An output's address is worked out of its
-- script, and the balance of an address is the store's. A negative number of a proof is kept as 0.
use graffiti_protocol.Base.{
  ℕ, max, Bool, false, not, List, [], ◌∷◌, Option, none, some, length, eqb, ltb, leb_ℤ, ◌&&◌, ◌||◌,
  ◌>>=◌, if◌then◌else◌, ℤ, pos, negsuc, pos_part, sum_by, Dict, insert, nat_key, pair_key,
}
use graffiti_protocol.Ledger.{TxOut}
use graffiti_protocol.Script.{Bytes}
use graffiti_protocol.Registry.{
  Post, Registry, list_of, get_post, record_post, record_comment, record_payout, record_proof,
  set_pool_balance, has_payout,
}
use graffiti_protocol.Graffiti.{
  Text, Value, Meta, Event, post, comment, payout, plain, proof, get, k_art_id, k_sha256, k_creator,
  k_mroot, k_size, k_comment, k_commenter, k_amount, k_tip, k_ts, k_epoch, k_offset, k_length,
  k_hash, k_seed, truthy, str_of, int_of, int_or, comment_min_fee, calc_upload_fee_sats,
  compute_proof_epoch, parse_from_script,
}
use graffiti_protocol.Validation.{
  Addresses, spk_to_address, paid_to, text_field, post_id, proof_height_of, proof_storer_of,
}

-- The first output with a payload that is understood.
unfoldable find_event : Text → List TxOut → Option (Event × Meta)
find_event t [] = none
find_event t (out ∷ outputs) = elim (parse_from_script t out.script_pubkey) [
  | none ↦ find_event t outputs
  | some e ↦ some e
]

-- `str(v)`, and the empty text for a missing value
unfoldable raw_text : Text → Option Value → ℕ
raw_text t none = 0
raw_text t (some v) = if truthy t (some v) then str_of t v else 0

-- `int(v) if v is not None else None`
unfoldable int_if : Text → Option Value → Option (Option ℤ)
int_if t none = some none
int_if t (some v) = elim (int_of t v) [ none ↦ none | some n ↦ some (some n) ]

-- What the outputs pay to an address that is compared stripped and lowered.
unfoldable pub paid_clean : Text → (Bytes → ℕ) → ℕ → List TxOut → ℕ
unfolding spk_to_address
paid_clean t bech32 addr outputs =
    sum_by
      (λ (out : TxOut). elim (spk_to_address bech32 out.script_pubkey) [
        | none ↦ 0
        | some a ↦ if eqb (t.clean a) addr then out.amount else 0
      ])
      outputs

-- `paid_map` of the recipients.
unfoldable pub paid_map_of : Text → (Bytes → ℕ) → List TxOut → List (ℕ × ℕ) → Dict ℕ ℕ → Dict ℕ ℕ
unfolding paid_clean
paid_map_of t bech32 outputs [] paid_map = paid_map
paid_map_of t bech32 outputs ((name, amt_req) ∷ recs) paid_map =
    let addr = t.clean name in
    paid_map_of t bech32 outputs recs (
      if eqb addr 0 || eqb amt_req 0
      then paid_map
      else insert addr (max (paid_clean t bech32 addr outputs) amt_req) paid_map)

-- Not a new epoch.
unfoldable pub is_paid_epoch : ℤ → Option ℕ → Bool
is_paid_epoch epoch none = false
is_paid_epoch epoch (some last_epoch) = leb_ℤ (pos 0) epoch && leb_ℤ epoch (pos last_epoch)

-- `epoch if epoch >= 0 else None`
unfoldable epoch_or_none : ℤ → Option ℕ
epoch_or_none epoch = if leb_ℤ (pos 0) epoch then some (pos_part epoch) else none

module _ (t : Text) (now : ℕ) where
  -- The epoch of the proof in a payout, if it has one.
  unfoldable event_proof_epoch : Meta → Option (Option ℤ)
  unfolding int_if
  event_proof_epoch meta = elim (get (proof k_epoch) meta) [
    | some v ↦ int_if t (some v)
    | none ↦ elim (int_if t (proof_height_of t meta)) [
      | none ↦ none
      | some none ↦ some none
      | some (some h) ↦ some (some (pos (compute_proof_epoch h)))
    ]
  ]

  -- The proof is recorded if it is whole; its height is read then.
  unfoldable record_event_proof :
      ℕ → ℕ → Meta → ℤ → Option ℤ → Option ℤ → Registry → Option Registry
  unfolding raw_text
  record_event_proof art_id block_height meta pe (some poff) (some plen) s =
      let hash = t.clean (raw_text t (get (proof k_hash) meta)) in
      if not (eqb (proof_storer_of t meta) 0) && not (eqb hash 0) && eqb (t.size_of hash) 64
      then (do
        height ← int_or t (pos block_height) (proof_height_of t meta)
        some (
            record_proof art_id
              (record {
                storer = proof_storer_of t meta;
                epoch = pos_part pe;
                offset = pos_part poff;
                size = pos_part plen;
                hash = hash;
                height = pos_part height;
                seed = raw_text t (get (proof k_seed) meta);
                ts = now;
              })
              s))
      else some s
  record_event_proof art_id block_height meta pe _ _ s = some s

  unfoldable with_proof : ℕ → ℕ → Meta → Registry → Option Registry
  unfolding event_proof_epoch record_event_proof
  with_proof art_id block_height meta s = do
    proof_epoch ← event_proof_epoch meta
    elim proof_epoch [
      | none ↦ some s
      | some pe ↦ do
        poff ← int_if t (get (proof k_offset) meta)
        plen ← int_if t (get (proof k_length) meta)
        record_event_proof art_id block_height meta pe poff plen s
    ]

  module _ (a : Addresses) (get_balance : ℕ → ℕ) where
    -- The balance of the pool as the output store has it.
    unfoldable sync_pool : ℕ → ℕ → Registry → Registry
    sync_pool art_id pool_addr s = set_pool_balance art_id (pos (get_balance pool_addr)) s

    unfoldable handle_post : Meta → List TxOut → ℕ → ℕ → Option ℕ → Registry → Option Registry
    unfolding sync_pool raw_text
    handle_post meta outputs txid block_height block_hash s =
        let art_id = post_id t meta in
        let pool_addr = a.pool_of art_id in
        let paid = paid_to a.bech32 pool_addr outputs in
        if eqb art_id 0 then some s else (do
          size ← int_or t (pos 0) (get (plain k_size) meta)
          if ltb paid (calc_upload_fee_sats (pos_part size))
              then some s
              else some (
                  sync_pool art_id pool_addr (
                    record_post art_id
                      (record {
                        sha256 = raw_text t (get (plain k_sha256) meta);
                        mroot = raw_text t (get (plain k_mroot) meta);
                        creator = text_field t k_creator meta;
                        stats = none;
                        ts = 0;
                      })
                      txid block_height pool_addr paid block_hash s)))

    -- What follows the tests of the post and its creator; `ts` is read by `record_comment`.
    unfoldable pub comment_on : Meta → List TxOut → ℕ → ℕ → ℕ → Post → Registry → Option Registry
    unfolding sync_pool raw_text
    comment_on meta outputs txid block_height art_id p s = do
      base_amount ← int_or t (pos 0) (get (plain k_amount) meta)
      tip ← int_or t (pos 0) (get (plain k_tip) meta)
      if leb_ℤ (pos comment_min_fee) base_amount
          then (do
            ts ← int_or t (pos now) (get (plain k_ts) meta)
            some (
                sync_pool art_id p.pool_address (
                  record_comment art_id
                    (record {
                      comment = raw_text t (get (plain k_comment) meta);
                      commenter = raw_text t (get (plain k_commenter) meta);
                      amount = pos_part base_amount;
                      tip = pos_part tip;
                      ts = pos_part ts;
                    })
                    txid block_height (paid_to a.bech32 p.creator outputs)
                    (paid_to a.bech32 p.pool_address outputs) s)))
          else some s

    unfoldable pub handle_comment : Meta → List TxOut → ℕ → ℕ → Registry → Option Registry
    unfolding comment_on
    handle_comment meta outputs txid block_height s =
        let art_id = text_field t k_art_id meta in
        if eqb art_id 0 then some s else (elim (get_post art_id s) [
          | none ↦ some s
          | some p ↦
              if eqb p.creator 0
              then some s
              else comment_on meta outputs txid block_height art_id p s
        ])

    -- The payout of a new epoch.
    unfoldable pub pay_out : Meta → List TxOut → ℕ → ℕ → ℕ → Post → ℤ → Registry → Option Registry
    unfolding paid_map_of with_proof epoch_or_none
    pay_out meta outputs txid block_height art_id p epoch s =
        let paid_map = paid_map_of t a.bech32 outputs meta.recipients [] in
        let total_paid = sum_by (λ (e : ℕ × ℕ). e.1) paid_map in
        let balance = get_balance (a.pool_of art_id) in
        if eqb (length paid_map) 0 || ltb p.stats.pool_balance total_paid then some s else (do
          s' ← with_proof art_id block_height meta s
          some (
              record_payout art_id paid_map txid block_height (epoch_or_none epoch)
                (some (pos balance)) s'))

    unfoldable pub payout_of : Meta → List TxOut → ℕ → ℕ → ℕ → Post → Registry → Option Registry
    unfolding is_paid_epoch pay_out sync_pool
    payout_of meta outputs txid block_height art_id p s = do
      epoch ← int_or t (negsuc 0) (get (plain k_epoch) meta)
      if is_paid_epoch epoch p.stats.last_paid_epoch
          then some (
              if has_payout txid (list_of art_id s.payouts.lists)
              then sync_pool art_id (a.pool_of art_id) s
              else s)
          else pay_out meta outputs txid block_height art_id p epoch s

    -- The text of a field is stripped as well as lowered, which changes nothing in what the parser gives.
    unfoldable pub handle_payout : Meta → List TxOut → ℕ → ℕ → Registry → Option Registry
    unfolding payout_of
    handle_payout meta outputs txid block_height s =
        let art_id = text_field t k_art_id meta in
        if eqb art_id 0 then some s else (elim (get_post art_id s) [
          | none ↦ some s
          | some p ↦ elim meta.recipients [
            | [] ↦ some s
            | _ ∷ _ ↦ payout_of meta outputs txid block_height art_id p s
          ]
        ])

    unfoldable handle_event :
        Option (Event × Meta) → List TxOut → ℕ → ℕ → Option ℕ → Registry → Option Registry
    unfolding handle_post handle_comment handle_payout
    handle_event none outputs txid block_height block_hash s = some s
    handle_event (some (post, meta)) outputs txid block_height block_hash s =
        handle_post meta outputs txid block_height block_hash s
    handle_event (some (comment, meta)) outputs txid block_height block_hash s =
        handle_comment meta outputs txid block_height s
    handle_event (some (payout, meta)) outputs txid block_height block_hash s =
        handle_payout meta outputs txid block_height s

    unfoldable record_graffiti_event : List TxOut → ℕ → ℕ → Option ℕ → Registry → Option Registry
    unfolding find_event handle_event
    record_graffiti_event outputs txid block_height block_hash s =
        handle_event (find_event t outputs) outputs txid block_height block_hash s
