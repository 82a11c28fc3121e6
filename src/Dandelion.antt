-- ===== src/Dandelion.antt =====
-- Dandelion++ relay of transactions: class DandelionPP of src/tsarchain/network/dandelion_pp.py.
-- Transaction ids and peers are only compared, so they are numbers, 0 being no peer. A timer is the
-- id that it is kept under. The random choice of a peer and the answer of a send are arguments.
mod Tests
pub mod Delivery
pub mod Interleaving
use graffiti_protocol.Base.{
  ℕ, Bool, true, false, List, [], ◌∷◌, Option, none, some, length, eqb, leb, if◌then◌else◌, ◌||◌,
  ◌&&◌, not, member, add, discard, nat_key,
}

-- `stems` and `broadcasts` are what was handed to the host: stem messages and diffusions.
pub record Relay : Type 0 where
  pub stem_seen : List ℕ
  pub fluffed : List ℕ
  pub timers : List ℕ
  pub stems : List (ℕ × ℕ)
  pub broadcasts : List ℕ

-- ENABLE_DANDELION_PP is on, and MIN_PEERS_FOR_DANDELION is 5.
unfoldable enabled : ℕ → Bool
enabled peers_count = leb 5 peers_count

unfoldable pub mark_stem : Relay → ℕ → Relay × Bool
mark_stem s tx =
    if member tx s.fluffed || member tx s.stem_seen
    then (s, false)
    else (record s { stem_seen = add tx s.stem_seen }, true)

-- `[p for p in peers if p and p != exclude]`
unfoldable candidates : Option ℕ → List ℕ → List ℕ
candidates exclude [] = []
candidates exclude (p ∷ peers) =
    let excluded : Bool = elim exclude [ none ↦ false | some x ↦ eqb p x ] in
    let rest = candidates exclude peers in if not (eqb p 0) && not excluded then p ∷ rest else rest

unfoldable pub pick_peer : (List ℕ → ℕ) → List ℕ → Option ℕ → Option ℕ
unfolding candidates
pick_peer choice peers exclude = elim (candidates exclude peers) [
  | [] ↦ none
  | p ∷ ps ↦ some (choice (p ∷ ps))
]

unfoldable send_stem : (ℕ → Bool) → Relay → ℕ → ℕ → Relay × Bool
send_stem answers s peer tx = (record s { stems = (peer, tx) ∷ s.stems }, answers peer)

unfoldable pub fluff : Relay → ℕ → Relay
fluff s tx = if member tx s.fluffed then s else record s {
  fluffed = add tx s.fluffed;
  timers = discard tx s.timers;
  broadcasts = tx ∷ s.broadcasts;
}

-- The two locked parts of `_schedule_fluff`: the first test, and the entry of the timer.
unfoldable may_schedule : Relay → ℕ → Bool
may_schedule s tx = not (member tx s.timers || member tx s.fluffed)

unfoldable pub arm_timer : Relay → ℕ → Relay
arm_timer s tx = if member tx s.fluffed then s else record s { timers = add tx s.timers }

unfoldable pub schedule_fluff : Relay → ℕ → Relay
unfolding may_schedule arm_timer
schedule_fluff s tx = if may_schedule s tx then arm_timer s tx else s

module _ (answers : ℕ → Bool) where
  -- The first hop, with diffusion where it fails.
  unfoldable pub first_hop : Relay → ℕ → ℕ → Relay
  unfolding send_stem fluff schedule_fluff
  first_hop s peer tx =
      let (stemmed, ok) = send_stem answers s peer tx in
      if ok then schedule_fluff stemmed tx else fluff stemmed tx

  -- `handle_outbound` from the choice of a peer on.
  unfoldable pub outbound_to : Relay → ℕ → Option ℕ → Relay × Bool
  unfolding mark_stem first_hop
  outbound_to s tx none = (s, false)
  outbound_to s tx (some peer) =
      let (marked, fresh) = mark_stem s tx in
      if fresh then (first_hop marked peer tx, true) else (marked, false)

  -- What is sent on for a stem that has not been seen: to one peer, or to all.
  unfoldable pub forward_stem : Relay → ℕ → Option ℕ → Relay
  unfolding send_stem fluff
  forward_stem s tx none = fluff s tx
  forward_stem s tx (some peer) =
      let (stemmed, ok) = send_stem answers s peer tx in if ok then stemmed else fluff stemmed tx

module _ (choice : List ℕ → ℕ) (answers : ℕ → Bool) where
  unfoldable pub handle_outbound : Relay → ℕ → List ℕ → Option ℕ → Relay × Bool
  unfolding enabled pick_peer outbound_to
  handle_outbound s tx peers exclude =
      if enabled (length peers)
      then outbound_to answers s tx (pick_peer choice peers exclude)
      else (s, false)

  unfoldable pub handle_inbound_stem : Relay → ℕ → List ℕ → Option ℕ → Relay × Bool
  unfolding enabled pick_peer mark_stem forward_stem schedule_fluff
  handle_inbound_stem s tx peers origin =
      let (marked, fresh) = mark_stem s tx in
      let forwarded = forward_stem answers marked tx (pick_peer choice peers origin) in
      if enabled (length peers)
      then (if fresh then (schedule_fluff forwarded tx, true) else (marked, true))
      else (s, false)
