-- ===== src/Client/Gate.antt =====
-- `handle_conn` of crates/hydr-client/src/lib.rs with a user name: who gets past the login.
use hydr.Base.{
  ℕ, ◌≡◌, refl, arith, Bool, true, false, Option, none, some, ◌==◌, not, ◌||◌, if◌then◌else◌,
}
use hydr.Base.{ltb, if-All}
use hydr.Base.Results.{
  Text, ok, err, index, invalid_data, text, OnOk, OnOk->>=, OnOk-eq, OnOk-weaken,
}
use hydr.Base.Sets.{contains, nat_eq}
use hydr.Client.{ClientConfig}
use hydr.Client.Conn.{login, check_method, is_some, or_default}
use hydr.Quic.Streams.{Quinn}
use hydr.Socks.{negotiate_method, verify_userpass, method_userpass}

-- No method, or the given one.
abbrev Only : ℕ → Option ℕ → Type 0
Only want none = Unit
Only want (some m) = m ≡ want

module _ (q : Quinn) where
  open q use {Recv, Send, read_exact, write_all}

  negotiate_method-Only :
      (s : Send) (r : Recv) → OnOk (λ x. Only method_userpass x.0) (negotiate_method q s r true)
  unfolding negotiate_method
  negotiate_method-Only s r =
      let P : Option ℕ × (Send × Recv) → Type 0 = λ x. Only method_userpass x.0 in
      OnOk->>= P (read_exact r 2) _ (λ (head, r1) e. OnOk->>= P (index head 0) _ (λ version e'.
        if-All (OnOk P) (not (version == 5)) (λ old. tt)
          (OnOk->>= P (index head 1) _ (λ nmethods e''.
            if-All (OnOk P) ((nmethods == 0) || ltb 32 nmethods) (λ wrong. tt)
              (OnOk->>= P (read_exact r1 nmethods) _ (λ (methods, r2) e3.
                OnOk->>= P (write_all s _) _ (λ s1 e4.
                  if-All (Only method_userpass) (contains method_userpass methods) (λ known. refl)
                    tt)))))))

  check_method-OnOk :
      (config : ClientConfig) (name : Text) (m : Option ℕ) (s1 : Send) (r1 : Recv)
      → config.socks5_username ≡ some name
      → Only method_userpass m
      → OnOk
          (λ x. verify_userpass q s1 r1 name (or_default config.socks5_password) ≡ ok (true, x))
          (check_method q config m s1 r1)
  unfolding check_method
  check_method-OnOk config name none s1 r1 e only = tt
  check_method-OnOk config name (some m) s1 r1 e only =
      let same : (m == method_userpass) ≡ true = ground arith in
      let P : Send × Recv → Type 0 =
        λ x. verify_userpass q s1 r1 name (or_default config.socks5_password) ≡ ok (true, x) in
      rw (same, e, check_method)
        (OnOk->>= P (verify_userpass q s1 r1 name (or_default config.socks5_password)) _
          (λ (right, ends) found. checked right ends found))
    where
      checked :
          (right : Bool) (ends : Send × Recv)
          → verify_userpass q s1 r1 name (or_default config.socks5_password) ≡ ok (right, ends)
          → OnOk
              (λ x. verify_userpass q s1 r1 name (or_default config.socks5_password) ≡ ok (true, x))
              (if right then ok ends else err (invalid_data (text "socks5 auth failed")))
      checked true ends found = found
      checked false ends found = tt

  -- Where the client has a user name, a local program gets past the login only over a check of its name and its
  -- password that succeeded.
  pub login-verify_userpass :
      (config : ClientConfig) (name : Text) (s : Send) (r : Recv) (ends : Send × Recv)
      → config.socks5_username ≡ some name
      → login q config s r ≡ ok ends
      → (s1 : Send) × (r1 : Recv) × (verify_userpass q s1 r1 name
            (or_default config.socks5_password)
          ≡ ok (true, ends))
  unfolding login
  login-verify_userpass config name s r ends e done =
      let P : Send × Recv → Type 0 = λ x.
        (s1 : Send) × (r1 : Recv) × (verify_userpass q s1 r1 name
            (or_default config.socks5_password)
          ≡ ok (true, x)) in
      let method : OnOk (λ x. Only method_userpass x.0)
          (negotiate_method q s r (is_some config.socks5_username)) =
        rw e (negotiate_method-Only s r) in
      OnOk-eq P (login q config s r) ends
        (OnOk->>= P (negotiate_method q s r (is_some config.socks5_username)) _
          (λ (m, (s1, r1)) found.
            OnOk-weaken _ P (check_method q config m s1 r1) (λ x h. (s1, r1, h))
              (check_method-OnOk config name m s1 r1 e
                (OnOk-eq (λ x. Only method_userpass x.0) _ (m, (s1, r1)) method found))))
        done
