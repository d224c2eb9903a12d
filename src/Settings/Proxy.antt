-- ===== src/Settings/Proxy.antt =====
-- The settings of the proxy of crates/hydr-client/src/cli.rs together with the login of
-- crates/hydr-client/src/lib.rs and socks5.rs.
use hydr.Base.{
  ℕ, ◌≤◌, ◌<◌, ◌≡◌, refl, ap, ◌∙◌, arith, List, [], ◌∷◌, ◌++◌, true, Option, none, some, length,
}
use hydr.Base.Results.{Text, text, Result, ok, ◌>>=◌, index, OnOk, OnOk->>=, OnOk-eq}
use hydr.Base.Sets.{nat_eq}
use hydr.Address.{IpAddr}
use hydr.Client.{ClientConfig}
use hydr.Client.Conn.{login, check_method, is_some}
use hydr.Message.Proof.{ct_eq, ct_eq_iff}
use hydr.Quic.Streams.{Quinn}
use hydr.Quic.Wire.{read_exact-front}
use hydr.Settings.{Host, trimmed}
use hydr.Settings.ClientFile.{
  ClientFile, config_of, resolve_password, resolve_socks5_password, transport_of,
}
use hydr.Socks.{negotiate_method, verify_userpass, method_userpass}
use hydr.Socks.Login.{verify_userpass-result}

-- The two fields that decide the login.
abbrev Login : Host → ClientFile → ClientConfig × (IpAddr × ℕ) → Type 0
Login h file x =
    (x.0.socks5_username ≡ file.socks5_username)
    × (x.0.socks5_password ≡ resolve_socks5_password h file)

config_of-Login : (h : Host) (file : ClientFile) → OnOk (Login h file) (config_of h file)
unfolding config_of
config_of-Login h file = OnOk->>= (Login h file) (resolve_password h file) _ (λ password e.
    OnOk->>= (Login h file) (transport_of h file.transport) _ (λ transport e1.
      OnOk->>= (Login h file) (h.parse_addr file.socks5_bind) _ (λ bind e2. (refl, refl))))

resolve_socks5_password-unset :
    (h : Host) (file : ClientFile)
    → trimmed (h.env_var (text "HYDR_SOCKS5_PASSWORD")) ≡ none
    → file.socks5_password ≡ none
    → resolve_socks5_password h file ≡ none
unfolding resolve_socks5_password
resolve_socks5_password-unset h file unset absent = by_name file.socks5_username
  where
    by_name :
        (o : Option Text)
        → (elim o [
          | none ↦ none
          | some name ↦ elim (trimmed (h.env_var (text "HYDR_SOCKS5_PASSWORD"))) [
            | some env ↦ some env
            | none ↦ file.socks5_password
          ]
        ])
          ≡ none
    by_name none = refl
    by_name (some name) = rw unset absent

module _ (q : Quinn) where
  open q use {Recv, Send, pending, read_exact, write_all}

  negotiate_method-reads :
      (s s1 : Send) (r r1 r2 : Recv)
      → read_exact r 2 ≡ ok (5 ∷ (1 ∷ []), r1)
      → read_exact r1 1 ≡ ok (method_userpass ∷ [], r2)
      → write_all s (5 ∷ (method_userpass ∷ [])) ≡ ok s1
      → negotiate_method q s r true ≡ ok (some method_userpass, (s1, r2))
  unfolding negotiate_method index
  negotiate_method-reads s s1 r r1 r2 e1 e2 e3 = rw (e1, e2, e3) refl

  check_method-right :
      (config : ClientConfig) (name : Text) (s s1 : Send) (r r1 : Recv)
      → config.socks5_username ≡ some name
      → config.socks5_password ≡ none
      → verify_userpass q s r name [] ≡ ok (true, (s1, r1))
      → check_method q config (some method_userpass) s r ≡ ok (s1, r1)
  unfolding check_method
  check_method-right config name s s1 r r1 e e' right = rw (e, e', right) refl

  login-check_method :
      (config : ClientConfig) (name : Text) (s : Send) (r : Recv) (m : Option ℕ)
      (ends ends' : Send × Recv)
      → config.socks5_username ≡ some name
      → negotiate_method q s r true ≡ ok (m, ends)
      → check_method q config m ends.0 ends.1 ≡ ok ends'
      → login q config s r ≡ ok ends'
  unfolding login
  login-check_method config name s r m ends ends' e negotiated checked =
      let next : Option ℕ × (Send × Recv) → Result (Send × Recv) =
        λ x. check_method q config x.0 x.1.0 x.1.1 in
      ap (λ o. negotiate_method q s r (is_some o) >>= next) e
      ∙ ap (λ m. m >>= next) negotiated
      ∙ checked

  -- Where the settings give the proxy a user name and no password, and the environment none either, a local program that
  -- sends the name and an empty password gets past the login, if what it is told can be written.
  pub login-no_password :
      (h : Host) (file : ClientFile) (config : ClientConfig) (bind : IpAddr × ℕ) (name : Text)
      (s : Send) (r : Recv) (rest : List ℕ)
      → ((t : Send) (bs : List ℕ) → (t' : Send) × (write_all t bs ≡ ok t'))
      → config_of h file ≡ ok (config, bind)
      → file.socks5_username ≡ some name
      → file.socks5_password ≡ none
      → trimmed (h.env_var (text "HYDR_SOCKS5_PASSWORD")) ≡ none
      → 1 ≤ length name
      → length name < 256
      → pending r ≡ 5 ∷ (1 ∷ (2 ∷ (1 ∷ (length name ∷ (name ++ (0 ∷ rest))))))
      → (s' : Send) × (r' : Recv) × (login q config s r ≡ ok (s', r')) × (pending r' ≡ rest)
  login-no_password h file config bind name s r rest writes e named absent unset long short p =
      let (user, pass) : Login h file (config, bind) =
        OnOk-eq _ _ (config, bind) (config_of-Login h file) e in
      let user' : config.socks5_username ≡ some name = user ∙ named in
      let pass' : config.socks5_password ≡ none =
        pass ∙ resolve_socks5_password-unset h file unset absent in
      let (r1, e1, p1) = read_exact-front q r (5 ∷ (1 ∷ [])) _ {n = 2} refl p in
      let (r2, e2, p2) = read_exact-front q r1 (2 ∷ []) _ {n = 1} refl p1 in
      let (s1, w1) = writes s (5 ∷ (method_userpass ∷ [])) in
      let (r3, e3, p3) =
        verify_userpass-result q s1 r2 name [] name [] rest long short (omega arith) p2 in
      let (s2, w2) = writes s1 (1 ∷ (0 ∷ [])) in
      let same : ct_eq name name ≡ true = (ct_eq_iff name name).1 refl in
      let right : verify_userpass q s1 r2 name [] ≡ ok (true, (s2, r3)) =
        e3 ∙ rw (same, (ct_eq_iff [] []).1 refl, w2) refl in
      (
        s2,
        r3,
        login-check_method config name s r (some method_userpass) (s1, r2) (s2, r3) user'
            (negotiate_method-reads s s1 r r1 r2 e1 e2 w1)
            (check_method-right config name s1 s2 r2 r3 user' pass' right),
        p3,
      )
