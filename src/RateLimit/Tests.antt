-- ===== src/RateLimit/Tests.antt =====
-- A burst of hits, an expired window and a ban, on small numbers.
use graffiti_protocol.Base.{
  ℕ, zero, suc, ◌+◌, ◌≡◌, ◌≤◌, refl, arith, true, false, List, [], ◌∷◌, none, some, nat_key,
}
use graffiti_protocol.RateLimit.Window.{
  Table, hit, set_default, pruned_of, prune_deque, rl_prune, append_hit,
}
use graffiti_protocol.RateLimit.Bans.{Hosts, Bans, is_banned, is_loopback, id_banned}
use graffiti_protocol.RateLimit.Handshake.{
  Peer, Limiter, base_limits, limits_for, identity_key, do_hit_check, ban_address, hit_key,
  allow_handshake,
}
use graffiti_protocol.RateLimit.Bound.{admitted, AreWithin, admitted-le}
use graffiti_protocol.RateLimit.Banning.{refusal_lasts}

-- Key 9 has an old hit. The first hit of the new window drops it with its deque.
abbrev table : Table
table = (9, 5 ∷ []) ∷ []

abbrev times : List ℕ
times = 100 ∷ 101 ∷ 102 ∷ 103 ∷ 104 ∷ []

within_window : AreWithin 100 10 times
within_window = ground arith

-- Three hits of a burst of two go through.
three_admitted : admitted table 9 10 2 times ≡ 3
unfolding admitted hit
three_admitted = refl

admitted-le_example : admitted table 9 10 2 times ≤ 2 + 1
admitted-le_example = admitted-le 9 10 2 100 times table within_window

abbrev hosts : Hosts
hosts = record { loopback_v4 = 1; loopback_v6 = 2 }

abbrev no_bans : Bans
no_bans = record { ban_ip_until = []; ban_id_until = [] }

is_remote : is_loopback hosts 20 ≡ false
unfolding is_loopback
is_remote = refl

-- An address with as many hits as its burst has.
abbrev copies : ℕ → ℕ → List ℕ
copies zero t = []
copies (suc n) t = t ∷ copies n t

abbrev peer : Peer
peer = record { subnet_of = λ ip. 3; identity_of = λ n. n }

abbrev busy : Limiter
busy = record {
  hits_ip = (20, copies 250 1000) ∷ [];
  hits_id = [];
  hits_subnet = [];
  bans = no_bans;
}

abbrev refused : Limiter
refused = (allow_handshake hosts peer busy 1001 20 1001 none none false).0

is_free : is_banned hosts no_bans 1001 20 1001 none ≡ false
unfolding is_banned is_loopback id_banned
is_free = refl

subnet_has_room : (hit_key [] 3 base_limits.subnet_window base_limits.subnet_burst 1001).1 ≡ true
unfolding hit_key hit set_default pruned_of prune_deque rl_prune append_hit
subnet_has_room = refl

is_refused : allow_handshake hosts peer busy 1001 20 1001 none none false ≡ (refused, false)
unfolding allow_handshake is_banned is_loopback id_banned limits_for identity_key do_hit_check
    hit_key hit set_default pruned_of prune_deque rl_prune append_hit ban_address
is_refused = refl

refusal_lasts_example :
    allow_handshake hosts peer refused 2000 20 2000 (some 8) (some true) true ≡ (refused, false)
refusal_lasts_example =
    refusal_lasts hosts peer busy refused 1001 2000 20 1001 2000 (some 8) (some true) true
      (ground arith) is_remote is_free subnet_has_room is_refused (omega arith) (omega arith)
