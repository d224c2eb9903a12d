-- ===== src/Server.antt =====
-- crates/hydr-server/src/lib.rs: the state of the server that authentication and admission use. The
-- locks make each method one step; `Instant::now` is an argument, in nanoseconds. What is done
-- with a tunnel, and the next hop, are in Serve.
pub mod Auth
pub mod Rate
pub mod Tunnels
pub mod Serve
pub mod Served
pub mod Listen
pub mod Listened
pub mod Reload
pub mod Reloaded
pub mod Stale
use hydr.Base.{ℕ, ◌+◌, ◌-◌, ◌%◌, ◌^◌, List, [], ◌∷◌, ◌++◌, Bool, true, false, Option, some, none}
use hydr.Base.{length, ltb, leb, ◌==◌, if◌then◌else◌, not}
use hydr.Base.Blake3.{Blake3}
use hydr.Base.Results.{Text, text}
use hydr.Base.Sets.{Eq}
use hydr.Address.{IpAddr, v4, v6}
use hydr.Message.{
  AuthRequest, AuthResponse, protocol_version, err_unsupported, err_protocol, err_bad_credentials,
  feature_udp, response_ok, response_error_with_code,
}
use hydr.Message.Proof.{compute_auth_proof, ct_eq}
use hydr.Metrics.{Metrics, incr, decr}
use hydr.Nonce
use hydr.Nonce.{NonceCache, seconds}

abbrev pub default_max_conns : ℕ
default_max_conns = 1024

abbrev pub auth_window : ℕ
auth_window = seconds 60

abbrev pub auth_max_per_ip : ℕ
auth_max_per_ip = 30

-- The parts of `ServerConfig` that are read here.
pub record Config : Type 0 where
  pub password : Text
  pub cc_rx : ℕ
  pub max_conns : ℕ

-- `conn_permits` is the number of permits left of the semaphore. `auth_attempts` maps an address, by
-- its octets, to the instants of its attempts.
pub record Server : Type 0 where
  pub config : Config
  pub conn_permits : ℕ
  pub auth_attempts : List (List ℕ × List ℕ)
  pub replay_nonces : NonceCache
  pub conns_active : ℕ
  pub next_tunnel_id : ℕ
  pub metrics : Metrics

unfoldable pub new : Config → Metrics → Server
new config metrics = record {
  config = config;
  conn_permits = if config.max_conns == 0 then default_max_conns else config.max_conns;
  auth_attempts = [];
  replay_nonces = Nonce.new Nonce.replay_cache_max;
  conns_active = 0;
  next_tunnel_id = 1;
  metrics = metrics;
}

-- `nonce_seen`: whether the nonce is new, which it is not afterwards.
unfoldable pub nonce_seen : Server → ℕ → List ℕ → Server × Bool
nonce_seen s now nonce =
    let (cache, fresh) = Nonce.insert s.replay_nonces now nonce in
    (record s { replay_nonces = cache }, fresh)

-- `validate`, which answers `Ok` on every branch.
module _ (b3 : Blake3) where
  unfoldable pub check_nonce : Server → ℕ → AuthRequest → AuthResponse × Server
  unfolding nonce_seen
  check_nonce s now req =
      let m = s.metrics in
      let (s', fresh) = nonce_seen s now req.client_nonce in
      if fresh
      then (
        response_ok s.config.cc_rx feature_udp,
        record s' { metrics = record m { auth_ok = incr m.auth_ok } },
      )
      else (
        response_error_with_code err_protocol (text "replay detected"),
        record s' { metrics = record m { auth_replay = incr m.auth_replay } },
      )

  unfoldable pub validate : Server → ℕ → AuthRequest → AuthResponse × Server
  validate s now req =
      let m = s.metrics in
      let expected = compute_auth_proof b3 s.config.password req.client_nonce in
      if not (req.version == protocol_version)
      then (
        response_error_with_code err_unsupported (text "unsupported protocol version"),
        record s { metrics = record m { auth_unsupported = incr m.auth_unsupported } },
      )
      else if ltb (length req.client_nonce) 8
      then (
        response_error_with_code err_protocol (text "client nonce too short"),
        record s { metrics = record m { auth_replay = incr m.auth_replay } },
      )
      else if not (ct_eq expected req.auth_proof)
      then (
        response_error_with_code err_bad_credentials (text "invalid credentials"),
        record s { metrics = record m { auth_bad_credentials = incr m.auth_bad_credentials } },
      )
      else check_nonce s now req

-- `v.retain(|t| now.duration_since(*t) < AUTH_WINDOW)`
unfoldable pub recent : ℕ → List ℕ → List ℕ
recent now [] = []
recent now (t ∷ ts) =
    let rest = recent now ts in if ltb (now - t) auth_window then t ∷ rest else rest

-- The attempts of one address after a call, and the answer.
unfoldable pub attempt : ℕ → List ℕ → List ℕ × Bool
attempt now ts =
    let v = recent now ts in
    if leb auth_max_per_ip (length v) then (v, false) else (v ++ (now ∷ []), true)

-- `entry(ip).or_default()` and the update of the entry.
module _ ⦃e : Eq (List ℕ)⦄ where
  unfoldable pub attempt_at : ℕ → List ℕ → List (List ℕ × List ℕ) → List (List ℕ × List ℕ) × Bool
  attempt_at now ip [] = let (v, allowed) = attempt now [] in ((ip, v) ∷ [], allowed)
  attempt_at now ip ((k, ts) ∷ rest) =
      let (rest', allowed') = attempt_at now ip rest in
      let (v, allowed) = attempt now ts in
      if e.beq k ip then ((k, v) ∷ rest, allowed) else ((k, ts) ∷ rest', allowed')

  unfoldable pub rate_allow : Server → ℕ → List ℕ → Server × Bool
  rate_allow s now ip =
      let (attempts, allowed) = attempt_at now ip s.auth_attempts in
      (record s { auth_attempts = attempts }, allowed)

-- `try_take_conn` and `release_conn`
unfoldable pub try_take_conn : Server → Option Server
try_take_conn s =
    if ltb 0 s.conn_permits
    then some (record s { conn_permits = s.conn_permits - 1; conns_active = incr s.conns_active })
    else none

unfoldable pub release_conn : Server → Server
release_conn s = record s { conn_permits = s.conn_permits + 1; conns_active = decr s.conns_active }
