-- ===== src/Dandelion/Tests.antt =====
-- One transaction on its way through a relay with five peers.
use graffiti_protocol.Base.{ℕ, refl, arith, true, List, [], ◌∷◌, some, nat_key}
use graffiti_protocol.Dandelion.{
  Relay, mark_stem, arm_timer, fluff, handle_outbound, handle_inbound_stem,
}
use graffiti_protocol.Dandelion.Delivery.{AreCovered, IsKept, handlers-AreCovered}
use graffiti_protocol.Dandelion.Interleaving.{
  marks, arms, fluffs, Reach, here, next, IsOrderly, Reach-IsOrderly,
}

abbrev empty : Relay
empty = record { stem_seen = []; fluffed = []; timers = []; stems = []; broadcasts = [] }

abbrev first : List ℕ → ℕ
first [] = 0
first (p ∷ _) = p

abbrev peers : List ℕ
peers = 11 ∷ 12 ∷ 13 ∷ 14 ∷ 15 ∷ []

empty-AreCovered : AreCovered empty
empty-AreCovered t seen = ground arith

handlers-AreCovered_example :
    IsKept 7 (handle_outbound first (λ _. true) empty 7 peers (some 11))
    × IsKept 7 (handle_inbound_stem first (λ _. true) empty 7 peers (some 11))
handlers-AreCovered_example =
    handlers-AreCovered first (λ _. true) empty 7 peers (some 11) empty-AreCovered

empty-IsOrderly : IsOrderly empty
empty-IsOrderly = record { once = tt; marked = λ t. refl; idle = λ t e. refl }

-- The timer is armed, the transaction comes back over the network, and the timer fires too late.
abbrev second : Relay
second = arm_timer (mark_stem empty 7).0 7

abbrev last : Relay
last = fluff (fluff second 7) 7

runs : Reach empty last
runs = next (next (next (next here (marks 7)) (arms 7)) (fluffs 7)) (fluffs 7)

Reach-IsOrderly_example : IsOrderly last
Reach-IsOrderly_example = Reach-IsOrderly empty-IsOrderly runs
