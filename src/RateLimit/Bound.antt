-- ===== src/RateLimit/Bound.antt =====
-- Sequences of calls of `_hit` on one key, of src/tsarchain/network/node_logic/ratelimit.py.
use graffiti_protocol.Base.{
  ℕ, ◌+◌, ◌-◌, ◌≤◌, ◌<◌, ◌≡◌, refl, arith, List, [], ◌∷◌, ◌++◌, Option, none, some, length,
  length-append, ltb, leb, if◌then◌else◌, lookup, List-cases, ◌∙◌, ap, nat_key, Option-cases,
  Bool-cases, inl, inr, ◌⊎◌,
}
use mathlib.Core.List.{append_assoc}
use graffiti_protocol.RateLimit.Window.{Table, prune_deque, hit}
use graffiti_protocol.RateLimit.Entry.{entry_after, hit_length, hit-entry, hit_length_pos}

-- How many of the hits of one key are let through.
unfoldable pub admitted : Table → ℕ → ℕ → ℕ → List ℕ → ℕ
admitted table key window burst [] = 0
admitted table key window burst (now ∷ times) =
    let after = hit table key window burst now in
    (if after.1 then 1 else 0) + admitted after.0 key window burst times

-- Every time lies in the window that begins at `start`.
abbrev pub AreWithin : ℕ → ℕ → List ℕ → Type 0
AreWithin start window [] = Unit {0}
AreWithin start window (t ∷ ts) = (start ≤ t) × (t ≤ start + window) × AreWithin start window ts

-- The entry ends in a first time within the window, and `m` further ones.
abbrev HasRecent : ℕ → ℕ → Option (List ℕ) → Type 0
HasRecent start m entry =
    (before : List ℕ) × (first : ℕ) × (recent : List ℕ) × (start ≤ first)
    × (length recent ≡ m)
    × (entry ≡ some (before ++ first ∷ recent))

prune_keeps :
    (start window now : ℕ) (before : List ℕ) (first : ℕ) (recent : List ℕ)
    → start ≤ first
    → now ≤ start + window
    → (left : List ℕ) × (prune_deque window now (before ++ first ∷ recent) ≡ left ++ first ∷ recent)
unfolding prune_deque
prune_keeps start window now [] first recent p q = ([], ground arith)
prune_keeps start window now (t ∷ before) first recent p q =
    let (left, kept) = prune_keeps start window now before first recent p q in
    elim (Bool-cases (ltb window (now - t))) [
      | inl old ↦ (left, rw old kept)
      | inr young ↦ (t ∷ before, rw young refl)
    ]

entry_after-kept :
    (window now : ℕ) (dq : List ℕ) (u : ℕ) (us : List ℕ)
    → prune_deque window now dq ≡ u ∷ us
    → entry_after (some dq) window now ≡ some (u ∷ us ++ now ∷ [])
unfolding entry_after
entry_after-kept window now [] u us e = unfold prune_deque in absurd (ground arith)
entry_after-kept window now (t ∷ ts) u us e = rw (e, entry_after)

forgotten_entry :
    (window now : ℕ) (entry : Option (List ℕ)) (t : ℕ) (ts : List ℕ)
    → entry ≡ some (t ∷ ts)
    → prune_deque window now (t ∷ ts) ≡ []
    → entry_after entry window now ≡ none
unfolding entry_after
forgotten_entry window now entry t ts e expired = rw e (rw (expired, entry_after) refl)

-- A hit within the window is recorded behind those before it, and is compared with all of them.
entry_after-HasRecent :
    (start window now m : ℕ) (dq before : List ℕ) (first : ℕ) (recent : List ℕ)
    → dq ≡ before ++ first ∷ recent
    → start ≤ first
    → length recent ≡ m
    → now ≤ start + window
    → HasRecent start (m + 1) (entry_after (some dq) window now)
      × (m + 2 ≤ hit_length (some dq) window now)
unfolding hit_length
entry_after-HasRecent start window now m dq before first recent e p l q =
    let (left, kept) = prune_keeps start window now before first recent p q in
    let (at, long) = rest left first recent dq (rw e kept) in
    (
      (left, first, recent ++ now ∷ [], p, omega (arith, length-append recent (now ∷ [])), at),
      omega (arith, long),
    )
  where
    rest :
        (left : List ℕ) (first : ℕ) (recent dq : List ℕ)
        → prune_deque window now dq ≡ left ++ first ∷ recent
        → (entry_after (some dq) window now ≡ some (left ++ first ∷ (recent ++ now ∷ [])))
          × (length recent + 2 ≤ length (prune_deque window now dq) + 1)
    rest [] first recent dq kept = (entry_after-kept window now dq first recent kept, ground arith)
    rest (u ∷ left) first recent dq kept = (
      entry_after-kept window now dq u (left ++ first ∷ recent) kept
          ∙ ap (λ (r : List ℕ). some (u ∷ r)) (append_assoc left (first ∷ recent) (now ∷ [])),
      ground (arith, length-append left (first ∷ recent)),
    )

module _ (key window burst start : ℕ) where
  admitted-HasRecent :
      (times : List ℕ) (table : Table) (m : ℕ)
      → AreWithin start window times
      → HasRecent start m (lookup key table)
      → admitted table key window burst times ≤ burst - (m + 1)
  unfolding admitted
  admitted-HasRecent [] table m within h = omega arith
  admitted-HasRecent (now ∷ times) table m within (before, first, recent, p, l, e) =
      let (entry, passed) = hit-entry table key window burst now in
      let dq = before ++ first ∷ recent in
      let (next, long) =
        entry_after-HasRecent start window now m dq before first recent refl p l within.1 in
      let rest =
        admitted-HasRecent times (hit table key window burst now).0 (m + 1) within.2
          (rw (entry, e) next) in
      ground (arith, ap (λ x. hit_length x window now) e)

  fresh_entry :
      (table : Table) (now : ℕ)
      → (lookup key table ≡ none) ⊎ (lookup key table ≡ some [])
      → lookup key (hit table key window burst now).0 ≡ some (now ∷ [])
  unfolding entry_after
  fresh_entry table now h = ground (arith, (hit-entry table key window burst now).0)

  -- From a deque that ends in this hit, the later ones share what the burst leaves.
  admitted-recorded :
      (now : ℕ) (times : List ℕ) (table : Table) (before : List ℕ)
      → AreWithin start window (now ∷ times)
      → lookup key (hit table key window burst now).0 ≡ some (before ++ now ∷ [])
      → admitted table key window burst (now ∷ times) ≤ burst
  unfolding admitted
  admitted-recorded now times table before within recorded =
      let (entry, passed) = hit-entry table key window burst now in
      let rest =
        admitted-HasRecent times (hit table key window burst now).0 0 within.2
          (before, now, [], within.0, refl, recorded) in
      ground (arith, hit_length_pos (lookup key table) window now)

  -- If the key has no hits yet, no more than the burst goes through.
  admitted-fresh :
      (times : List ℕ) (table : Table)
      → AreWithin start window times
      → (lookup key table ≡ none) ⊎ (lookup key table ≡ some [])
      → admitted table key window burst times ≤ burst
  admitted-fresh [] table within h = unfold admitted in omega arith
  admitted-fresh (now ∷ times) table within (inl e) =
      admitted-recorded now times table [] within (fresh_entry table now (inl e))
  admitted-fresh (now ∷ times) table within (inr e) =
      admitted-recorded now times table [] within (fresh_entry table now (inr e))

  admitted-forgotten :
      (now : ℕ) (times : List ℕ) (table : Table) (t : ℕ) (ts : List ℕ)
      → AreWithin start window (now ∷ times)
      → lookup key table ≡ some (t ∷ ts)
      → prune_deque window now (t ∷ ts) ≡ []
      → admitted table key window burst (now ∷ times) ≤ burst + 1
  unfolding admitted
  admitted-forgotten now times table t ts within e expired =
      let gone =
        (hit-entry table key window burst now).0
        ∙ forgotten_entry window now (lookup key table) t ts e expired in
      ground (arith, admitted-fresh times (hit table key window burst now).0 within.2 (inl gone))

  -- Of the hits of one key that lie within one window, at most one more than the burst is let
  -- through, whatever hits the table already holds.
  pub admitted-le :
      (times : List ℕ) (table : Table)
      → AreWithin start window times
      → admitted table key window burst times ≤ burst + 1
  admitted-le [] table within = unfold admitted in omega arith
  admitted-le (now ∷ times) table within = elim (Option-cases (lookup key table)) [
    | inl e ↦ omega (arith, admitted-fresh (now ∷ times) table within (inl e))
    | inr (dq, e) ↦ elim (List-cases (prune_deque window now dq)) [
      | inl expired ↦ elim (List-cases dq) [
        | inl empty ↦
            omega (arith, admitted-fresh (now ∷ times) table within (inr (e ∙ ap some empty)))
        | inr (t, ts, old) ↦
            admitted-forgotten now times table t ts within (e ∙ ap some old) (rw (← old) expired)
      ]
      | inr (u, us, kept) ↦ omega (
        arith,
        admitted-recorded now times table (u ∷ us) within (
            (hit-entry table key window burst now).0
            ∙ ap (λ x. entry_after x window now) e
            ∙ entry_after-kept window now dq u us kept),
      )
    ]
  ]

-- Every time is more than the window back.
abbrev AreExpired : ℕ → ℕ → List ℕ → Type 0
AreExpired window now [] = Unit {0}
AreExpired window now (t ∷ ts) = (window < now - t) × AreExpired window now ts

prune_expired :
    (window now : ℕ) (ts : List ℕ) → AreExpired window now ts → prune_deque window now ts ≡ []
unfolding prune_deque
prune_expired window now [] h = refl
prune_expired window now (t ∷ ts) h = ground (arith, prune_expired window now ts h.1)

-- A hit on a key whose earlier hits have all expired is compared with the burst, but it leaves
-- nothing behind: afterwards the table holds no hit of the key, not even this one.
hit_forgotten :
    (table : Table) (key window burst now t : ℕ) (ts : List ℕ)
    → lookup key table ≡ some (t ∷ ts)
    → AreExpired window now (t ∷ ts)
    → (lookup key (hit table key window burst now).0 ≡ none)
      × ((hit table key window burst now).1 ≡ leb 1 burst)
unfolding hit_length
hit_forgotten table key window burst now t ts e h =
    let gone = prune_expired window now (t ∷ ts) h in
    (
      (hit-entry table key window burst now).0
          ∙ forgotten_entry window now (lookup key table) t ts e gone,
      (hit-entry table key window burst now).1
          ∙ ap (λ x. leb (hit_length x window now) burst) e
          ∙ ap (λ (l : List ℕ). leb (length l + 1) burst) gone,
    )
