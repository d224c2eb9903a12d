-- ===== src/Settings/ClientFile.antt =====
-- crates/hydr-client/src/cli.rs and main.rs: the settings of the client, and the configuration that `main`
-- makes of them.
use hydr.Base.{ℕ, Bool, Option, none, some}
use hydr.Base.Results.{Text, text, Result, ok, ◌>>=◌}
use hydr.Address.{IpAddr}
use hydr.Client.{ClientConfig, ClientTransport, quic_transport, ws_transport}
use hydr.Settings
use hydr.Settings.{Host, load, trimmed, unwrap_or}

pub data TransportFile : Type 0 where
  quic_file :
      (addr server_name : Text) (insecure : Bool) (fingerprint : Option Text) → TransportFile
  ws_file : (url : Text) (insecure : Bool) (obfuscation fingerprint : Option Text) → TransportFile

pub record ClientFile : Type 0 where
  pub password : Option Text
  pub password_file : Option Text
  pub cc_rx : Option ℕ
  pub socks5_bind : Text
  pub socks5_username : Option Text
  pub socks5_password : Option Text
  pub transport : TransportFile

module _ (h : Host) where
  open h use {parse_addr, env_var}

  -- `ClientFile::resolve_password`
  unfoldable pub resolve_password : ClientFile → Result Text
  resolve_password file = Settings.resolve_password h file.password_file file.password

  unfoldable pub resolve_socks5_password : ClientFile → Option Text
  unfolding trimmed
  resolve_socks5_password file = elim file.socks5_username [
    | none ↦ none
    | some name ↦ elim (trimmed (env_var (text "HYDR_SOCKS5_PASSWORD"))) [
      | some env ↦ some env
      | none ↦ file.socks5_password
    ]
  ]

  unfoldable pub transport_of : TransportFile → Result ClientTransport
  transport_of (quic_file addr server_name insecure fingerprint) =
      parse_addr addr >>= λ a. ok (quic_transport a server_name insecure fingerprint)
  transport_of (ws_file url insecure obfuscation fingerprint) =
      ok (ws_transport url insecure obfuscation fingerprint)

  -- `main` behind `load`: what the client connects with, and the address of its proxy.
  unfoldable pub config_of : ClientFile → Result (ClientConfig × (IpAddr × ℕ))
  unfolding resolve_password resolve_socks5_password transport_of
  config_of file = do
    password ← resolve_password file
    transport ← transport_of file.transport
    socks5_bind ← parse_addr file.socks5_bind
    ok (
      record {
        transport = transport;
        password = password;
        cc_rx = unwrap_or file.cc_rx 0;
        socks5_username = file.socks5_username;
        socks5_password = resolve_socks5_password file;
      },
      socks5_bind,
    )

  unfoldable pub main : (Text → Result ClientFile) → Text → Result (ClientConfig × (IpAddr × ℕ))
  unfolding load config_of
  main from_str path = load h from_str path >>= config_of
