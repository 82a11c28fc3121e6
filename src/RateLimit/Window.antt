-- ===== src/RateLimit/Window.antt =====
-- The sliding windows: `_rl_prune`, `_hit` and `_would_allow`.
use graffiti_protocol.Base.{
  ℕ, ◌-◌, Bool, true, List, [], ◌∷◌, ◌++◌, none, some, length, ltb, leb, eqb, if◌then◌else◌, Dict,
  lookup, insert, erase, nat_key,
}

abbrev pub Table : Type 0
Table = Dict ℕ (List ℕ)

-- `while dq and (now_ts - dq[0]) > window_s: dq.popleft()`
unfoldable pub prune_deque : ℕ → ℕ → List ℕ → List ℕ
prune_deque window now [] = []
prune_deque window now (t ∷ dq) =
    let rest = prune_deque window now dq in if ltb window (now - t) then rest else t ∷ dq

-- A deque that is left empty loses its key; one that was empty before keeps it.
unfoldable put_pruned : Table → ℕ → List ℕ → Table
put_pruned table key [] = erase key table
put_pruned table key (t ∷ dq) = insert key (t ∷ dq) table

unfoldable pub rl_prune : Table → ℕ → ℕ → ℕ → Table
unfolding put_pruned prune_deque
rl_prune table key window now = elim (lookup key table) [
  | none ↦ table
  | some dq ↦ elim dq [
    | [] ↦ table
    | t ∷ ts ↦ put_pruned table key (prune_deque window now (t ∷ ts))
  ]
]

-- The deque that `dq` names after the pruning, whether or not the table still holds it.
unfoldable pub pruned_of : Table → ℕ → ℕ → ℕ → List ℕ
unfolding prune_deque
pruned_of table key window now = elim (lookup key table) [
  | none ↦ []
  | some dq ↦ prune_deque window now dq
]

-- `dq.append(now_ts)` reaches the table only if the table still holds that deque.
unfoldable pub append_hit : Table → ℕ → List ℕ → Table
append_hit table key dq = elim (lookup key table) [ none ↦ table | some _ ↦ insert key dq table ]

-- `table.setdefault(key, deque())`
unfoldable pub set_default : Table → ℕ → Table
set_default table key = elim (lookup key table) [ none ↦ insert key [] table | some _ ↦ table ]

unfoldable pub hit : Table → ℕ → ℕ → ℕ → ℕ → Table × Bool
unfolding rl_prune pruned_of append_hit set_default
hit table key window burst now =
    let table' = set_default table key in
    let dq = pruned_of table' key window now ++ now ∷ [] in
    (append_hit (rl_prune table' key window now) key dq, leb (length dq) burst)

unfoldable pub would_allow : Table → ℕ → ℕ → ℕ → ℕ → Table × Bool
unfolding rl_prune
would_allow table key window burst now = elim (lookup key table) [
  | none ↦ (table, true)
  | some dq ↦ elim dq [
    | [] ↦ (table, true)
    | _ ∷ _ ↦
        let table' = rl_prune table key window now in
        elim (lookup key table') [
          | none ↦ (table', true)
          | some dq' ↦ (table', if eqb (length dq') 0 then true else ltb (length dq') burst)
        ]
  ]
]
