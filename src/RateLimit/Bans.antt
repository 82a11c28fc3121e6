-- ===== src/RateLimit/Bans.antt =====
-- Temporary bans: `_is_banned`, `_ban_peer` and `ban_ip`. A missing ban ends at time 0.
use graffiti_protocol.Base.{
  ℕ, ◌+◌, Bool, true, false, Option, none, some, ltb, eqb, if◌then◌else◌, ◌||◌, Dict, lookup,
  insert, nat_key,
}

-- The two spellings of the own host, which are never limited.
pub record Hosts : Type 0 where
  pub loopback_v4 : ℕ
  pub loopback_v6 : ℕ

pub record Bans : Type 0 where
  pub ban_ip_until : Dict ℕ ℕ
  pub ban_id_until : Dict ℕ ℕ

abbrev pub until_of : ℕ → Dict ℕ ℕ → ℕ
until_of key bans = elim (lookup key bans) [ none ↦ 0 | some t ↦ t ]

unfoldable pub is_loopback : Hosts → ℕ → Bool
is_loopback hosts ip = eqb ip hosts.loopback_v4 || eqb ip hosts.loopback_v6

-- `node_id and _temp_ban_id.get(node_id, 0.0) > now`, where no id and an empty one are false.
unfoldable pub id_banned : Bans → Option ℕ → ℕ → Bool
id_banned bans none now = false
id_banned bans (some node_id) now =
    if eqb node_id 0 then false else ltb now (until_of node_id bans.ban_id_until)

-- `clock` is `time.time()`, which stands in for a time stamp of 0.
unfoldable pub is_banned : Hosts → Bans → ℕ → ℕ → ℕ → Option ℕ → Bool
unfolding is_loopback id_banned
is_banned hosts bans clock ip now_ts node_id =
    let now = if eqb now_ts 0 then clock else now_ts in
    if is_loopback hosts ip
    then false
    else (if id_banned bans node_id now then true else ltb now (until_of ip bans.ban_ip_until))

-- A ban is only ever extended.
unfoldable pub extend_ban : ℕ → ℕ → Dict ℕ ℕ → Dict ℕ ℕ
extend_ban key until bans = if ltb (until_of key bans) until then insert key until bans else bans

unfoldable pub ban_peer : Hosts → Bans → ℕ → ℕ → ℕ → Option ℕ → Bans
unfolding is_loopback extend_ban
ban_peer hosts bans clock ip duration node_id =
    let until = clock + duration in
    let ids : Dict ℕ ℕ = elim node_id [
      | none ↦ bans.ban_id_until
      | some n ↦ if eqb n 0 then bans.ban_id_until else extend_ban n until bans.ban_id_until
    ] in
    if eqb ip 0 || is_loopback hosts ip
    then bans
    else record bans { ban_ip_until = extend_ban ip until bans.ban_ip_until; ban_id_until = ids }

unfoldable ban_ip : Hosts → Bans → ℕ → ℕ → ℕ → Bans
unfolding ban_peer
ban_ip hosts bans clock ip seconds = ban_peer hosts bans clock ip seconds none
