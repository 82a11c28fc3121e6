-- ===== src/RateLimit/Handshake.antt =====
-- `allow_handshake` and the two ways in which it ends.
use graffiti_protocol.Base.{
  ℕ, ◌+◌, ◌*◌, ◌/◌, max, Bool, true, false, Option, none, some, eqb, if◌then◌else◌, insert, nat_key,
}
use graffiti_protocol.RateLimit.Window.{Table, hit, would_allow}
use graffiti_protocol.RateLimit.Bans.{Hosts, Bans, until_of, is_loopback, is_banned, ban_peer}

-- `subnet_of` is `_subnet_key`, which parses addresses with `ipaddress`; `identity_of` strips and
-- lowers a node id; `pow_ok` is the answer of `verify_pow`, `none` for no proof.
pub record Peer : Type 0 where
  pub subnet_of : ℕ → ℕ
  pub identity_of : ℕ → ℕ

pub record Limiter : Type 0 where
  pub hits_ip : Table
  pub hits_id : Table
  pub hits_subnet : Table
  pub bans : Bans

pub record Limits : Type 0 where
  ip_burst : ℕ
  ip_window : ℕ
  pub subnet_burst : ℕ
  pub subnet_window : ℕ
  id_burst : ℕ
  id_window : ℕ

abbrev pub temp_ban : ℕ
temp_ban = 10000

abbrev pub base_limits : Limits
base_limits = record {
  ip_burst = 250;
  ip_window = 10000;
  subnet_burst = 400;
  subnet_window = 15000;
  id_burst = 200;
  id_window = 10000;
}

-- With an identity the limits of the address are wider, and the gate before `accept` halves them.
unfoldable pub limits_for : Bool → Bool → Limits
limits_for has_identity precheck =
    let wide =
      if has_identity
      then record base_limits {
        ip_burst = max base_limits.ip_burst (base_limits.ip_burst * 6);
        subnet_burst = max base_limits.subnet_burst (base_limits.subnet_burst * 6);
      }
      else base_limits in
    if precheck
    then record wide {
      ip_burst = max 1 (wide.ip_burst / 2);
      subnet_burst = max 1 (wide.subnet_burst / 2);
    }
    else wide

-- `subnet and not _would_allow(…)`: an empty key is not looked at.
unfoldable check_key : Table → ℕ → ℕ → ℕ → ℕ → Table × Bool
check_key table key window burst now =
    if eqb key 0 then (table, true) else would_allow table key window burst now

unfoldable pub hit_key : Table → ℕ → ℕ → ℕ → ℕ → Table × Bool
hit_key table key window burst now =
    if eqb key 0 then (table, true) else hit table key window burst now

unfoldable pub do_precheck : Limits → Limiter → ℕ → ℕ → ℕ → ℕ → Limiter × Bool
unfolding check_key
do_precheck l s ip subnet identity now =
    let (subnets, subnet_ok) = check_key s.hits_subnet subnet l.subnet_window l.subnet_burst now in
    let (ids, id_ok) = check_key s.hits_id identity l.id_window l.id_burst now in
    let (ips, ip_ok) = would_allow s.hits_ip ip l.ip_window l.ip_burst now in
    if subnet_ok
    then (if id_ok
        then (record s { hits_subnet = subnets; hits_id = ids; hits_ip = ips }, ip_ok)
        else (record s { hits_subnet = subnets; hits_id = ids }, false))
    else (record s { hits_subnet = subnets }, false)

-- The ban for too many hits of an address: short and on the address alone if there is an identity.
unfoldable pub ban_address : Hosts → Bans → ℕ → ℕ → ℕ → ℕ → Bans
ban_address hosts bans clock ip identity now =
    let backoff = now + max 5000 (temp_ban / 2) in
    if eqb identity 0 then ban_peer hosts bans clock ip temp_ban none else record bans {
      ban_ip_until = insert ip (max (until_of ip bans.ban_ip_until) backoff) bans.ban_ip_until;
    }

unfoldable pub do_hit_check : Hosts → Limits → Limiter → ℕ → ℕ → ℕ → ℕ → ℕ → Limiter × Bool
unfolding hit_key ban_address
do_hit_check hosts l s clock ip subnet identity now =
    let (subnets, subnet_ok) = hit_key s.hits_subnet subnet l.subnet_window l.subnet_burst now in
    let (ids, id_ok) = hit_key s.hits_id identity l.id_window l.id_burst now in
    let (ips, ip_ok) = hit s.hits_ip ip l.ip_window l.ip_burst now in
    let s₁ = record s { hits_subnet = subnets } in
    let s₂ = record s₁ { hits_id = ids } in
    let s₃ = record s₂ { hits_ip = ips } in
    if subnet_ok
    then (if id_ok
        then (if ip_ok
            then (s₃, true)
            else (record s₃ { bans = ban_address hosts s.bans clock ip identity now }, false))
        else (record s₂ { bans = ban_peer hosts s.bans clock ip temp_ban (some identity) }, false))
    else (s₁, false)

abbrev not_zero : ℕ → Bool
not_zero n = if eqb n 0 then false else true

module _ (hosts : Hosts) (peer : Peer) where
  -- `(node_id or "").strip().lower()`, with 0 for no identity.
  unfoldable pub identity_key : Option ℕ → ℕ
  identity_key none = 0
  identity_key (some n) = if eqb n 0 then 0 else peer.identity_of n

  unfoldable pub allow_handshake :
      Limiter → ℕ → ℕ → ℕ → Option ℕ → Option Bool → Bool → Limiter × Bool
  unfolding is_banned limits_for identity_key
  allow_handshake s clock ip now node_id pow_ok precheck =
      let identity = identity_key node_id in
      let l = limits_for (not_zero identity) precheck in
      let subnet = peer.subnet_of ip in
      let limited =
        if precheck
        then do_precheck l s ip subnet identity now
        else do_hit_check hosts l s clock ip subnet identity now in
      if is_loopback hosts ip
      then (s, true)
      else (if is_banned hosts s.bans clock ip now node_id
          then (s, false)
          else (elim pow_ok [ none ↦ limited | some good ↦ if good then (s, true) else limited ]))
