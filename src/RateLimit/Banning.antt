-- ===== src/RateLimit/Banning.antt =====
-- Bans over time: `_ban_peer`, `_is_banned` and `allow_handshake` of
-- src/tsarchain/network/node_logic/ratelimit.py.
use graffiti_protocol.Base.{
  ℕ, ◌+◌, ◌<◌, ◌≡◌, ◌≢◌, sym, ◌∙◌, arith, Bool, true, false, Option, none, some, eqb, if◌then◌else◌,
  lookup-insert, nat_key, Dict, max,
}
use graffiti_protocol.RateLimit.Bans.{
  Hosts, Bans, until_of, is_loopback, id_banned, is_banned, extend_ban, ban_peer,
}
use graffiti_protocol.RateLimit.Handshake.{
  Peer, Limiter, base_limits, limits_for, temp_ban, hit_key, allow_handshake, do_hit_check,
  identity_key, ban_address,
}

until-extend_ban :
    (key k until : ℕ) (bans : Dict ℕ ℕ)
    → until_of k (extend_ban key until bans)
      ≡ (if eqb key k then max until (until_of k bans) else until_of k bans)
unfolding extend_ban
until-extend_ban key k until bans = ground (arith, lookup-insert key k until bans)

module _ (hosts : Hosts) where
  ban_peer-id_banned :
      (bans : Bans) (clock ip duration now : ℕ) (node_id asked : Option ℕ)
      → id_banned bans asked now ≡ true
      → id_banned (ban_peer hosts bans clock ip duration node_id) asked now ≡ true
  unfolding id_banned ban_peer
  ban_peer-id_banned bans clock ip duration now node_id none h = h
  ban_peer-id_banned bans clock ip duration now none (some a) h = ground arith
  ban_peer-id_banned bans clock ip duration now (some n) (some a) h =
      ground (arith, until-extend_ban n a (clock + duration) bans.ban_id_until)

  -- From the moment of a ban to its end, an address that is not the own host is banned, under
  -- whatever node id it asks.
  ban_peer-is_banned :
      (bans : Bans) (clock clock' ip duration now : ℕ) (node_id asked : Option ℕ)
      → ip ≢ 0
      → is_loopback hosts ip ≡ false
      → 0 < now
      → now < clock + duration
      → is_banned hosts (ban_peer hosts bans clock ip duration node_id) clock' ip now asked ≡ true
  unfolding is_banned ban_peer
  ban_peer-is_banned bans clock clock' ip duration now node_id asked named far p q =
      ground (arith, until-extend_ban ip ip (clock + duration) bans.ban_ip_until)

  -- A further ban, of whatever address and id, ends no ban that holds.
  ban_peer_extends :
      (bans : Bans) (clock clock' ip other duration now : ℕ) (node_id asked : Option ℕ)
      → is_banned hosts bans clock' other now asked ≡ true
      → is_banned hosts (ban_peer hosts bans clock ip duration node_id) clock' other now asked
        ≡ true
  unfolding is_banned ban_peer
  ban_peer_extends bans clock clock' ip other duration now node_id asked before = ground (
    arith,
    until-extend_ban ip other (clock + duration) bans.ban_ip_until,
    ban_peer-id_banned bans clock ip duration now node_id asked,
    ban_peer-id_banned bans clock ip duration clock' node_id asked,
  )

  -- A ban for a node id is kept under the stripped and lowered id, and asked for under the id as it
  -- was sent: another spelling of the id passes from any other address that is not banned itself.
  ban_misses_spelling :
      (bans : Bans) (clock clock' ip other duration now key sent : ℕ)
      → sent ≢ key
      → other ≢ ip
      → is_banned hosts bans clock' other now (some sent) ≡ false
      → is_banned hosts
          (ban_peer hosts bans clock ip duration (some key))
          clock'
          other
          now
          (some sent)
        ≡ false
  unfolding is_banned ban_peer
  ban_misses_spelling bans clock clock' ip other duration now key sent ne far before = ground (
    arith,
    until-extend_ban key sent (clock + duration) bans.ban_id_until,
    until-extend_ban ip other (clock + duration) bans.ban_ip_until,
  )

  excess-bans :
      (s s' : Limiter) (clock ip subnet now : ℕ)
      → (hit_key s.hits_subnet subnet base_limits.subnet_window base_limits.subnet_burst now).1
        ≡ true
      → do_hit_check hosts base_limits s clock ip subnet 0 now ≡ (s', false)
      → s'.bans ≡ ban_peer hosts s.bans clock ip temp_ban none
  unfolding do_hit_check ban_address hit_key
  excess-bans s s' clock ip subnet now room refused = ground arith

  module _ (peer : Peer) where
    banned_out :
        (s : Limiter) (clock ip now : ℕ) (node_id : Option ℕ) (pow_ok : Option Bool) (pre : Bool)
        → is_banned hosts s.bans clock ip now node_id ≡ true
        → allow_handshake hosts peer s clock ip now node_id pow_ok pre ≡ (s, false)
    unfolding allow_handshake is_banned
    banned_out s clock ip now node_id pow_ok pre h = ground arith

    anonymous_check :
        (s : Limiter) (clock ip now : ℕ)
        → is_loopback hosts ip ≡ false
        → is_banned hosts s.bans clock ip now none ≡ false
        → allow_handshake hosts peer s clock ip now none none false
          ≡ do_hit_check hosts base_limits s clock ip (peer.subnet_of ip) 0 now
    unfolding allow_handshake identity_key limits_for
    anonymous_check s clock ip now far free = ground arith

    -- An address that asks without a node id and without a proof, whose subnet has hits left, and
    -- that is refused, is refused from then on, with any node id and any proof, until the ban ends,
    -- and these refusals leave the tables as they are.
    pub refusal_lasts :
        (s s' : Limiter) (clock clock' ip now later : ℕ) (node_id : Option ℕ) (pow_ok : Option Bool)
        (pre : Bool)
        → ip ≢ 0
        → is_loopback hosts ip ≡ false
        → is_banned hosts s.bans clock ip now none ≡ false
        → (hit_key s.hits_subnet
            (peer.subnet_of ip)
            base_limits.subnet_window
            base_limits.subnet_burst
            now).1
          ≡ true
        → allow_handshake hosts peer s clock ip now none none false ≡ (s', false)
        → 0 < later
        → later < clock + temp_ban
        → allow_handshake hosts peer s' clock' ip later node_id pow_ok pre ≡ (s', false)
    refusal_lasts s s' clock clock' ip now later node_id pow_ok pre named far free room refused p
          q =
        banned_out s' clock' ip later node_id pow_ok pre (
          ground (
            arith,
            excess-bans s s' clock ip (peer.subnet_of ip) now room
                (sym (anonymous_check s clock ip now far free) ∙ refused),
            ban_peer-is_banned s.bans clock clock' ip temp_ban later none node_id named far p q,
          ))
