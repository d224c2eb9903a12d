-- ===== src/Tests/Settings.antt =====
-- The theorems about the settings of both programs at concrete inputs.
use hydr.Base.{ℕ, ◌≡◌, ◌≢◌, ◌↔◌, refl, arith, List, [], ◌∷◌, ◌++◌, false, none, some}
use hydr.Base.Blake3.{toy}
use hydr.Base.Results.{text, ok}
use hydr.Base.Sets.{bytes_eq}
use hydr.Base.Trim.{IsTrimmed, trim}
use hydr.Address.{IpAddr, v4}
use hydr.Client.{ClientConfig, quic_transport}
use hydr.Client.Conn.{login}
use hydr.Message.{status_ok, feature_udp}
use hydr.Message.Proof.{new_password}
use hydr.Metrics
use hydr.Nonce
use hydr.Nonce.{keys, evict_expired, evict_from}
use hydr.Nonce.Valid.{IsValid, new-IsValid}
use hydr.Quic.Streams.{lists}
use hydr.Server.{Server, validate}
use hydr.Server
use hydr.Settings.{Host, resolve_password}
use hydr.Settings.ClientFile
use hydr.Settings.ClientFile.{ClientFile}
use hydr.Settings.ServerFile
use hydr.Settings.ServerFile.{ServerFile, ServerConfig, QuicFile, QuicListen}
use hydr.Settings.Password.{Origin, from_file, from_settings, resolve_password-Origin}
use hydr.Settings.Agreement.{config_of-validate}
use hydr.Settings.Proxy.{login-no_password}

abbrev addr : IpAddr × ℕ
addr = (v4 (127 ∷ (0 ∷ (0 ∷ (1 ∷ [])))), 1080)

-- A system with one file, for its owner only, and an empty environment.
abbrev host : Host
host = record {
  mode_of = λ path. ok 0x180;
  read_to_string = λ path. ok (text " hunter2\n");
  env_var = λ name. none;
  parse_addr = λ s. ok addr;
}

abbrev quic_file : QuicFile
quic_file = record {
  bind = text "127.0.0.1:1080";
  server_name = text "hydr";
  cert = none;
  key = none;
}

abbrev server_file : ServerFile
server_file = record {
  password = none;
  password_file = some (text "pw");
  cc_rx = none;
  max_conns = none;
  max_udp_sessions = none;
  max_udp_sessions_per_ip = none;
  metrics_bind = none;
  quic = some quic_file;
  ws = none;
  next_hop = none;
}

abbrev server_config : ServerConfig
server_config = record {
  password = text "hunter2";
  cc_rx = 0;
  quic = some (record { bind = addr; server_name = text "hydr"; cert = none; key = none });
  ws = none;
  next_hop = none;
  max_conns = 0;
  max_udp_sessions = 0;
  max_udp_sessions_per_ip = 0;
  metrics_bind = none;
}

abbrev client_file : ClientFile
client_file = record {
  password = some (text "hunter2 ");
  password_file = none;
  cc_rx = none;
  socks5_bind = text "127.0.0.1:1080";
  socks5_username = some (text "bob");
  socks5_password = none;
  transport = ClientFile.quic_file (text "127.0.0.1:1080") (text "hydr") false none;
}

abbrev client_config : ClientConfig
client_config = record {
  transport = quic_transport addr (text "hydr") false none;
  password = text "hunter2";
  cc_rx = 0;
  socks5_username = some (text "bob");
  socks5_password = none;
}

resolve_password-Origin_example :
    ((resolve_password host (some (text "pw")) none ≡ ok (text "hunter2"))
      ↔ Origin host (some (text "pw")) none (text "hunter2"))
    × (resolve_password host (some (text "pw")) none ≡ ok (text "hunter2")
        → (text "hunter2" ≢ []) × IsTrimmed (text "hunter2"))
resolve_password-Origin_example =
    resolve_password-Origin host (some (text "pw")) none (text "hunter2")

abbrev server : Server
server = Server.new (record { password = text "hunter2"; cc_rx = 0; max_conns = 0 }) Metrics.new

abbrev nonce : List ℕ
nonce = 1 ∷ 2 ∷ 3 ∷ 4 ∷ 5 ∷ 6 ∷ 7 ∷ 8 ∷ []

server-IsValid : IsValid server.replay_nonces
unfolding Server.new
server-IsValid = new-IsValid 8192

trim_file : trim (text " hunter2\n") ≡ text "hunter2"
unfolding trim
trim_file = refl

trim_settings : trim (text "hunter2 ") ≡ text "hunter2"
unfolding trim
trim_settings = refl

named : text "hunter2" ≢ []
named e = cc

config_of-validate_example :
    (validate toy server 5
      (new_password toy client_config.password client_config.cc_rx feature_udp nonce)).0.status
    ≡ status_ok
unfolding Server.new Nonce.new evict_expired evict_from ServerFile.config_of ClientFile.config_of
    trim resolve_password
config_of-validate_example =
    config_of-validate toy host host server_file client_file server_config client_config addr
      (text "hunter2") server 5 nonce
      (from_file (text "pw") (text " hunter2\n") 0x180 refl refl refl refl trim_file named)
      (from_settings refl (λ t (s, e, same, ne). cc) (text "hunter2 ", refl, trim_settings, named))
      refl refl refl server-IsValid (omega arith) refl

abbrev sent : List ℕ
sent = 5 ∷ (1 ∷ (2 ∷ (1 ∷ (3 ∷ (text "bob" ++ (0 ∷ (5 ∷ [])))))))

login-no_password_example :
    (s' r' : List ℕ) × (login lists client_config [] sent ≡ ok (s', r')) × (r' ≡ 5 ∷ [])
unfolding ClientFile.config_of trim resolve_password
login-no_password_example =
    login-no_password lists host client_file client_config addr (text "bob") [] sent (5 ∷ [])
      (λ t bs. (t ++ bs, refl)) refl refl refl refl (omega arith) (omega arith) refl
