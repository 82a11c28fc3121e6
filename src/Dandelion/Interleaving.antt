-- ===== src/Dandelion/Interleaving.antt =====
-- The relay's locked sections in any interleaving of threads and timers. Every method takes the lock
-- once for each of the sections `_mark_stem`, `fluff` and the second half of `_schedule_fluff`; what
-- stands between them reads nothing that it writes back later.
use graffiti_protocol.Base.{
  ℕ, ◌≡◌, arith, true, false, List, [], ◌∷◌, member, member-add, member-discard, eqb_iff, nat_key,
}
use graffiti_protocol.Dandelion.{Relay, mark_stem, fluff, arm_timer}

pub data Step (s : Relay) : Relay → Type 0 where
  marks : (tx : ℕ) → Step s (mark_stem s tx).0
  arms : (tx : ℕ) → Step s (arm_timer s tx)
  fluffs : (tx : ℕ) → Step s (fluff s tx)

pub data Reach (s : Relay) : Relay → Type 0 where
  here : Reach s s
  next : {t u : Relay} → Reach s t → Step t u → Reach s u

abbrev IsDistinct : List ℕ → Type 0
IsDistinct [] = Unit {0}
IsDistinct (x ∷ xs) = (member x xs ≡ false) × IsDistinct xs

-- What was broadcast is what is marked as diffused, and no diffused transaction has a timer.
pub record IsOrderly (s : Relay) : Type 0 where
  pub once : IsDistinct s.broadcasts
  pub marked : (t : ℕ) → member t s.broadcasts ≡ member t s.fluffed
  pub idle : (t : ℕ) → member t s.fluffed ≡ true → member t s.timers ≡ false

fluff-IsOrderly : (s : Relay) (tx : ℕ) → IsOrderly s → IsOrderly (fluff s tx)
unfolding fluff
fluff-IsOrderly s tx h = record {
  once = ground (arith, h.once, h.marked tx);
  marked = λ t. ground (arith, h.marked t, member-add tx t s.fluffed);
  idle = λ t e. ground (arith, h.idle t, member-add tx t s.fluffed, member-discard tx t s.timers);
}

arm_timer-IsOrderly : (s : Relay) (tx : ℕ) → IsOrderly s → IsOrderly (arm_timer s tx)
unfolding arm_timer
arm_timer-IsOrderly s tx h = record {
  once = ground (arith, h.once);
  marked = λ t. ground (arith, h.marked t);
  idle = λ t e. ground (arith, h.idle t, eqb_iff tx t, member-add tx t s.timers);
}

mark_stem-IsOrderly : (s : Relay) (tx : ℕ) → IsOrderly s → IsOrderly (mark_stem s tx).0
unfolding mark_stem
mark_stem-IsOrderly s tx h = record {
  once = ground (arith, h.once);
  marked = λ t. ground (arith, h.marked t);
  idle = λ t e. ground (arith, h.idle t);
}

Step-IsOrderly : {s t : Relay} → Step s t → IsOrderly s → IsOrderly t
Step-IsOrderly {s} (marks tx) h = mark_stem-IsOrderly s tx h
Step-IsOrderly {s} (arms tx) h = arm_timer-IsOrderly s tx h
Step-IsOrderly {s} (fluffs tx) h = fluff-IsOrderly s tx h

-- In every interleaving of the locked sections, no transaction is diffused twice, and one that has
-- been diffused has no timer left, nor gets one again.
pub Reach-IsOrderly : {s t : Relay} → IsOrderly s → Reach s t → IsOrderly t
Reach-IsOrderly h here = h
Reach-IsOrderly h (next r st) = Step-IsOrderly st (Reach-IsOrderly h r)
