-- ===== src/Udp.antt =====
-- crates/hydr-server/src/udp.rs: the table of UDP sessions, by the client's address and the session
-- number that it chose. Sockets are handles; what binding, resolving and sending give is an argument,
-- as is the time in nanoseconds. The mutex of `sessions` is held through an admission, a removal and a
-- sweep, each of which is one step here; the task that carries replies back is not modelled.
pub mod Counts
pub mod Sessions
use hydr.Base.{ℕ, suc, ◌+◌, ◌-◌, List, [], ◌∷◌, ◌++◌, Bool, true, false, Option, none, some}
use hydr.Base.{length, ltb, leb, ◌==◌, ◌&&◌, if◌then◌else◌}
use hydr.Base.Results.{Text, text, Result, ok, err, panic, Error, message}
use hydr.Base.Sets.{bytes_eq, nat_eq}
use hydr.Metrics.{Metrics, incr, decr}
use hydr.Nonce.{seconds}

abbrev pub session_timeout : ℕ
session_timeout = seconds 120

abbrev pub default_max_udp_sessions : ℕ
default_max_udp_sessions = 4096

abbrev pub default_max_udp_sessions_per_ip : ℕ
default_max_udp_sessions_per_ip = 64

-- `SessionKey`: an address, by its octets, and a number.
abbrev pub SessionKey : Type 0
SessionKey = List ℕ × ℕ

pub record UdpSession : Type 0 where
  pub socket : ℕ
  pub last_active : ℕ
  pub owner : List ℕ

abbrev pub SessionsMap : Type 0
SessionsMap = List (SessionKey × UdpSession)

abbrev pub Counters : Type 0
Counters = List (List ℕ × ℕ)

pub record UdpManager : Type 0 where
  pub sessions : SessionsMap
  pub per_ip : Counters
  pub max_sessions : ℕ
  pub max_per_ip : ℕ
  pub metrics : Metrics

unfoldable pub with_limits : ℕ → ℕ → Metrics → UdpManager
with_limits max_sessions max_per_ip metrics = record {
  sessions = [];
  per_ip = [];
  max_sessions = if max_sessions == 0 then default_max_udp_sessions else max_sessions;
  max_per_ip = if max_per_ip == 0 then default_max_udp_sessions_per_ip else max_per_ip;
  metrics = metrics;
}

abbrev pub key_eq : SessionKey → SessionKey → Bool
key_eq (ip, id) (ip', id') = bytes_eq.beq ip ip' && nat_eq.beq id id'

-- `HashMap::get`, the update through `get_mut`, and `remove`, on lists without repeated keys.
unfoldable pub find : SessionKey → SessionsMap → Option UdpSession
find key [] = none
find key ((k, s) ∷ rest) = if key_eq k key then some s else find key rest

unfoldable pub touch : ℕ → SessionKey → SessionsMap → SessionsMap
touch now key [] = []
touch now key ((k, s) ∷ rest) =
    let rest' = touch now key rest in
    if key_eq k key then (k, record s { last_active = now }) ∷ rest else (k, s) ∷ rest'

unfoldable pub remove_key : SessionKey → SessionsMap → SessionsMap
remove_key key [] = []
remove_key key ((k, s) ∷ rest) =
    let rest' = remove_key key rest in if key_eq k key then rest else (k, s) ∷ rest'

-- `per_ip.get(ip).copied().unwrap_or(0)`
unfoldable pub count_of : List ℕ → Counters → ℕ
count_of ip [] = 0
count_of ip ((k, n) ∷ rest) = let rest' = count_of ip rest in if bytes_eq.beq k ip then n else rest'

-- `*per_ip.entry(client_ip).or_default() += 1`
unfoldable pub increment_per_ip : Counters → List ℕ → Counters
increment_per_ip [] ip = (ip, 1) ∷ []
increment_per_ip ((k, n) ∷ rest) ip =
    let rest' = increment_per_ip rest ip in
    if bytes_eq.beq k ip then (k, suc n) ∷ rest else (k, n) ∷ rest'

-- `per_ip.remove(ip)`
unfoldable pub remove_ip : Counters → List ℕ → Counters
remove_ip [] ip = []
remove_ip ((k, n) ∷ rest) ip =
    let rest' = remove_ip rest ip in if bytes_eq.beq k ip then rest' else (k, n) ∷ rest'

unfoldable pub set_count : Counters → List ℕ → ℕ → Counters
set_count [] ip m = []
set_count ((k, n) ∷ rest) ip m =
    let rest' = set_count rest ip m in if bytes_eq.beq k ip then (k, m) ∷ rest else (k, n) ∷ rest'

-- `saturating_sub` stops at zero. An address without an entry is left alone by both updates.
unfoldable pub decrement_per_ip : Counters → List ℕ → Counters
decrement_per_ip per_ip ip =
    let n = count_of ip per_ip - 1 in if n == 0 then remove_ip per_ip ip else set_count per_ip ip n

-- What follows `sessions.remove(key)` where it found the session, in `remove_session` and the sweep.
unfoldable pub drop_session : UdpManager → SessionKey → UdpSession → UdpManager
drop_session m key s = record m {
  sessions = remove_key key m.sessions;
  per_ip = decrement_per_ip m.per_ip s.owner;
  metrics = record (m.metrics) { udp_sessions_current = decr m.metrics.udp_sessions_current };
}

unfoldable pub remove_session : UdpManager → SessionKey → UdpManager
unfolding drop_session
remove_session m key = elim (find key m.sessions) [ none ↦ m | some s ↦ drop_session m key s ]

-- The keys of the sessions that were silent for longer than the timeout.
unfoldable pub stale : ℕ → SessionsMap → List SessionKey
stale now [] = []
stale now ((k, s) ∷ rest) =
    let rest' = stale now rest in
    if ltb session_timeout (now - s.last_active) then k ∷ rest' else rest'

unfoldable pub remove_all : UdpManager → List SessionKey → UdpManager
remove_all m [] = m
remove_all m (key ∷ keys) = remove_all (remove_session m key) keys

-- One turn of `sweep_loop`.
unfoldable pub sweep : UdpManager → ℕ → UdpManager
sweep m now = remove_all m (stale now m.sessions)

-- `rate_limited`, with the code in decimal.
unfoldable pub rate_limited : Text → Error
rate_limited msg = message (text "[code 2] " ++ msg)

unfoldable pub reject : UdpManager → UdpManager
reject m = record m {
  metrics = record (m.metrics) { udp_sessions_rejected = incr m.metrics.udp_sessions_rejected };
}

-- The insertion of a new session, with the counters.
unfoldable pub open_session : UdpManager → ℕ → ℕ → SessionKey → UdpManager
open_session m now socket key = record m {
  sessions = (key, record { socket = socket; last_active = now; owner = key.0 }) ∷ m.sessions;
  per_ip = increment_per_ip m.per_ip key.0;
  metrics = record (m.metrics) {
    udp_sessions_current = incr m.metrics.udp_sessions_current;
    udp_sessions_created = incr m.metrics.udp_sessions_created;
  };
}

-- `UdpSocket::bind(…).await?` and what follows.
unfoldable pub bind_session : UdpManager → ℕ → SessionKey → Result ℕ → Result ℕ × UdpManager
unfolding open_session
bind_session m now key (ok socket) = (ok socket, open_session m now socket key)
bind_session m now key (err e) = (err e, m)
bind_session m now key panic = (panic, m)

-- The part of `forward` under the lock: the socket of the session, which is made if need be.
unfoldable pub admit : UdpManager → ℕ → Result ℕ → SessionKey → Result ℕ × UdpManager
unfolding reject rate_limited bind_session
admit m now bind key = elim (find key m.sessions) [
  | some s ↦ (ok s.socket, record m { sessions = touch now key m.sessions })
  | none ↦
      if leb m.max_sessions (length m.sessions)
      then (err (rate_limited (text "udp session table full")), reject m)
      else if leb m.max_per_ip (count_of key.0 m.per_ip)
      then (err (rate_limited (text "too many udp sessions for this ip")), reject m)
      else bind_session m now key bind
]

-- The end of `forward`: a session whose datagram cannot be sent is removed.
unfoldable pub after_send :
    UdpManager → SessionKey → Result (Unit {0}) → Result (Unit {0}) × UdpManager
unfolding remove_session
after_send m key (ok done) = (ok tt, m)
after_send m key (err e) = (err e, remove_session m key)
after_send m key panic = (panic, m)

unfoldable pub send_on :
    {Target : Type 0}
    → UdpManager
    → SessionKey
    → Result ℕ
    → Result Target
    → (ℕ → Target → Result (Unit {0}))
    → Result (Unit {0}) × UdpManager
unfolding after_send
send_on m key panic resolve send = (panic, m)
send_on m key (err e) resolve send = (err e, m)
send_on m key (ok socket) panic send = (panic, m)
send_on m key (ok socket) (err e) send = (err e, m)
send_on m key (ok socket) (ok target) send = after_send m key (send socket target)

-- `forward`: `resolve` is the outcome of `resolve_target`, and `send` that of `send_to`.
unfoldable pub forward :
    {Target : Type 0}
    → UdpManager
    → ℕ
    → Result ℕ
    → SessionKey
    → Result Target
    → (ℕ → Target → Result (Unit {0}))
    → Result (Unit {0}) × UdpManager
unfolding admit send_on
forward m now bind key resolve send =
    let (socket, m') = admit m now bind key in send_on m' key socket resolve send
