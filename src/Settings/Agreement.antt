-- ===== src/Settings/Agreement.antt =====
-- The settings of both programs together with the client's request and the server's `validate`.
use hydr.Base.{ℕ, ◌≤◌, ◌≡◌, refl, sym, ap, ◌∙◌, false, length, List}
use hydr.Base.Blake3.{Blake3}
use hydr.Base.Results.{Text, ok, OnOk, OnOk->>=, OnOk-eq, ok-injective}
use hydr.Base.Sets.{contains, bytes_eq, nat_eq}
use hydr.Address.{IpAddr}
use hydr.Client.{ClientConfig}
use hydr.Message.{status_ok, feature_udp}
use hydr.Message.Proof.{compute_auth_proof, new_password}
use hydr.Nonce.{keys, evict_expired}
use hydr.Nonce.Valid.{IsValid}
use hydr.Server.{Server, validate}
use hydr.Server.Auth.{validate_iff}
use hydr.Settings.{Host}
use hydr.Settings.ClientFile
use hydr.Settings.ClientFile.{ClientFile, transport_of}
use hydr.Settings.ServerFile
use hydr.Settings.ServerFile.{ServerFile, ServerConfig}
use hydr.Settings.Password.{Origin, resolve_password-Origin}
use hydr.Settings.Start.{Follows, config_of-Follows}

client-password :
    (h : Host) (file : ClientFile)
    → OnOk
        (λ x. ClientFile.resolve_password h file ≡ ok (x.0.password))
        (ClientFile.config_of h file)
unfolding ClientFile.config_of
client-password h file =
    let P : ClientConfig × (IpAddr × ℕ) → Type 0 =
      λ x. ClientFile.resolve_password h file ≡ ok (x.0.password) in
    OnOk->>= P (ClientFile.resolve_password h file) _ (λ password e.
      OnOk->>= P (transport_of h file.transport) _
        (λ transport e1. OnOk->>= P (h.parse_addr file.socks5_bind) _ (λ bind e2. e)))

-- If the settings of the server and of the client lead to the same password, from whatever source on either side, the
-- request that the client makes with a nonce of eight bytes or more that the server does not remember is accepted, on
-- a server with this password and a consistent nonce cache.
pub config_of-validate :
    (b3 : Blake3) (hs hc : Host) (server_file : ServerFile) (client_file : ClientFile)
    (sc : ServerConfig) (cc : ClientConfig) (bind : IpAddr × ℕ) (p : Text) (s : Server) (now : ℕ)
    (nonce : List ℕ)
    → Origin hs server_file.password_file server_file.password p
    → Origin hc client_file.password_file client_file.password p
    → ServerFile.config_of hs server_file ≡ ok sc
    → ClientFile.config_of hc client_file ≡ ok (cc, bind)
    → s.config.password ≡ sc.password
    → IsValid s.replay_nonces
    → 8 ≤ length nonce
    → contains nonce (keys (evict_expired s.replay_nonces now).order) ≡ false
    → (validate b3 s now (new_password b3 cc.password cc.cc_rx feature_udp nonce)).0.status
      ≡ status_ok
unfolding new_password ServerFile.resolve_password ClientFile.resolve_password
config_of-validate b3 hs hc server_file client_file sc cc bind p s now nonce os oc es ec same v long
      fresh =
    let f : Follows hs server_file sc = OnOk-eq _ _ sc (config_of-Follows hs server_file) es in
    let server_has : p ≡ sc.password = ok-injective (
      sym ((resolve_password-Origin hs server_file.password_file server_file.password p).0.1 os)
      ∙ f.password) in
    let client_has : p ≡ cc.password = ok-injective (
      sym ((resolve_password-Origin hc client_file.password_file client_file.password p).0.1 oc)
      ∙ OnOk-eq _ _ (cc, bind) (client-password hc client_file) ec) in
    (validate_iff b3 s now (new_password b3 cc.password cc.cc_rx feature_udp nonce) v).1 (
      (refl, long, ap (λ q. compute_auth_proof b3 q nonce) (same ∙ sym server_has ∙ client_has)),
      fresh,
    )
