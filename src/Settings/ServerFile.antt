-- ===== src/Settings/ServerFile.antt =====
-- crates/hydr-server/src/cli.rs and main.rs: the settings of the server, and the configuration that `main`
-- makes of them. `Server::run` starts a task for each listener of it; what these do is in Server.Serve.
use hydr.Base.{ℕ, List, [], ◌∷◌, ◌++◌, Bool, true, false, Option, none, some, ◌&&◌}
use hydr.Base.{if◌then◌else◌}
use hydr.Base.Results.{Text, text, Result, ok, err, ◌>>=◌, message, invalid_data}
use hydr.Address.{IpAddr}
use hydr.Server.Serve.{NextHop, NextHopTransport, quic_hop, ws_hop}
use hydr.Settings
use hydr.Settings.{Host, load, transpose, unwrap_or}

pub record QuicFile : Type 0 where
  pub bind : Text
  pub server_name : Text
  pub cert : Option Text
  pub key : Option Text

pub record WsFile : Type 0 where
  pub bind : Text
  pub path : Text
  pub obfuscation : Option Text

pub data HopTransportFile : Type 0 where
  quic_file :
      (addr server_name : Text) (insecure : Bool) (fingerprint : Option Text) → HopTransportFile
  ws_file :
      (url : Text) (insecure : Bool) (obfuscation fingerprint : Option Text) → HopTransportFile

pub record NextHopFile : Type 0 where
  pub password : Text
  pub transport : HopTransportFile

pub record ServerFile : Type 0 where
  pub password : Option Text
  pub password_file : Option Text
  pub cc_rx : Option ℕ
  pub max_conns : Option ℕ
  pub max_udp_sessions : Option ℕ
  pub max_udp_sessions_per_ip : Option ℕ
  pub metrics_bind : Option Text
  pub quic : Option QuicFile
  pub ws : Option WsFile
  pub next_hop : Option NextHopFile

pub record QuicListen : Type 0 where
  pub bind : IpAddr × ℕ
  pub server_name : Text
  pub cert : Option Text
  pub key : Option Text

pub record WsListen : Type 0 where
  pub bind : IpAddr × ℕ
  pub path : Text
  pub obfuscation : Option Text

pub record ServerConfig : Type 0 where
  pub password : Text
  pub cc_rx : ℕ
  pub quic : Option QuicListen
  pub ws : Option WsListen
  pub next_hop : Option NextHop
  pub max_conns : ℕ
  pub max_udp_sessions : ℕ
  pub max_udp_sessions_per_ip : ℕ
  pub metrics_bind : Option (IpAddr × ℕ)

abbrev pub is_none {ℓ} : {A : Type ℓ} → Option A → Bool
is_none none = true
is_none (some a) = false

module _ (h : Host) where
  open h use {parse_addr}

  -- `ServerFile::resolve_password`
  unfoldable pub resolve_password : ServerFile → Result Text
  resolve_password file = Settings.resolve_password h file.password_file file.password

  unfoldable pub quic_listen : QuicFile → Result QuicListen
  quic_listen q = parse_addr q.bind >>= λ bind.
      ok (record { bind = bind; server_name = q.server_name; cert = q.cert; key = q.key })

  unfoldable pub ws_listen : WsFile → Result WsListen
  ws_listen w = parse_addr w.bind >>= λ bind.
      ok (record { bind = bind; path = w.path; obfuscation = w.obfuscation })

  unfoldable pub hop_transport : HopTransportFile → Result NextHopTransport
  hop_transport (quic_file addr server_name insecure fingerprint) =
      parse_addr addr >>= λ a. ok (quic_hop a server_name insecure fingerprint)
  hop_transport (ws_file url insecure obfuscation fingerprint) =
      ok (ws_hop url insecure obfuscation fingerprint)

  unfoldable pub next_hop_of : NextHopFile → Result NextHop
  unfolding hop_transport
  next_hop_of n =
      hop_transport n.transport >>= λ t. ok (record { transport = t; password = n.password })

  -- `main` up to its check of the listeners.
  unfoldable pub config_of : ServerFile → Result ServerConfig
  unfolding resolve_password quic_listen ws_listen next_hop_of
  config_of file = do
    password ← resolve_password file
    quic ← transpose quic_listen file.quic
    ws ← transpose ws_listen file.ws
    next_hop ← transpose next_hop_of file.next_hop
    metrics_bind ← transpose parse_addr file.metrics_bind
    ok (record {
      password = password;
      cc_rx = unwrap_or file.cc_rx 0;
      quic = quic;
      ws = ws;
      next_hop = next_hop;
      max_conns = unwrap_or file.max_conns 0;
      max_udp_sessions = unwrap_or file.max_udp_sessions 0;
      max_udp_sessions_per_ip = unwrap_or file.max_udp_sessions_per_ip 0;
      metrics_bind = metrics_bind;
    })

  -- `main`, to the configuration that the server is made with.
  unfoldable pub main : (Text → Result ServerFile) → Text → Result ServerConfig
  unfolding load config_of
  main from_str path = do
    file ← load h from_str path
    config ← config_of file
    if is_none config.quic && is_none config.ws
        then err (message (text "конфиг должен содержать quic или ws слушатель"))
        else ok config

-- What `run` starts a task for.
pub data Listener : Type 0 where
  quic_listener : QuicListen → Listener
  ws_listener : WsListen → Listener
  metrics_listener : IpAddr × ℕ → Listener

unfoldable pub handles : ServerConfig → List Listener
handles config =
    elim config.quic [ none ↦ [] | some q ↦ quic_listener q ∷ [] ]
    ++ (elim config.ws [ none ↦ [] | some w ↦ ws_listener w ∷ [] ]
        ++ elim config.metrics_bind [ none ↦ [] | some bind ↦ metrics_listener bind ∷ [] ])

-- `run`, to the tasks that it waits for.
unfoldable pub run : ServerConfig → Result (List Listener)
unfolding handles
run config = elim (handles config) [
  | [] ↦ err (invalid_data (text "no listeners configured"))
  | l ∷ ls ↦ ok (l ∷ ls)
]
