-- ===== src/RateLimit/Entry.antt =====
-- What one call of `_hit` leaves under its key, of src/tsarchain/network/node_logic/ratelimit.py.
use graffiti_protocol.Base.{
  ℕ, ◌+◌, ◌<◌, ◌≡◌, arith, List, [], ◌∷◌, ◌++◌, Option, none, some, length, length-append, leb,
  lookup, insert, lookup-insert_self, lookup-erase_self, List-cases, nat_key, Option-cases, inl,
  inr,
}
use graffiti_protocol.RateLimit.Window.{Table, prune_deque, hit}

-- What a hit leaves under its own key, from what was there before.
unfoldable pub entry_after : Option (List ℕ) → ℕ → ℕ → Option (List ℕ)
entry_after none window now = some (now ∷ [])
entry_after (some []) window now = some (now ∷ [])
entry_after (some (t ∷ ts)) window now = elim (prune_deque window now (t ∷ ts)) [
  | [] ↦ none
  | u ∷ us ↦ some (u ∷ us ++ now ∷ [])
]

-- How long the deque is that a hit compares with the burst.
unfoldable pub hit_length : Option (List ℕ) → ℕ → ℕ → ℕ
hit_length none window now = 1
hit_length (some dq) window now = length (prune_deque window now dq) + 1

pub hit-entry :
    (table : Table) (key window burst now : ℕ)
    → (lookup key (hit table key window burst now).0 ≡ entry_after (lookup key table) window now)
      × ((hit table key window burst now).1 ≡ leb (hit_length (lookup key table) window now) burst)
unfolding hit entry_after hit_length
hit-entry table key window burst now = elim (Option-cases (lookup key table)) [
  | inl new ↦
      let d = insert key [] table in
      ground (arith, lookup-insert_self key [] table, lookup-insert_self key (now ∷ []) d)
  | inr ([], empty) ↦ ground (arith, lookup-insert_self key (now ∷ []) table)
  | inr (t ∷ ts, old) ↦ elim (List-cases (prune_deque window now (t ∷ ts))) [
    | inl expired ↦ ground (arith, lookup-erase_self key table)
    | inr (u, us, kept) ↦
        let dq = u ∷ us in
        ground (
          arith,
          lookup-insert_self key dq table,
          lookup-insert_self key (dq ++ now ∷ []) (insert key dq table),
          length-append us (now ∷ []),
        )
  ]
]

pub hit_length_pos : (entry : Option (List ℕ)) (window now : ℕ) → 0 < hit_length entry window now
unfolding hit_length
hit_length_pos none window now = omega arith
hit_length_pos (some dq) window now = omega arith
