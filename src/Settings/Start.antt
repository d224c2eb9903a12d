-- ===== src/Settings/Start.antt =====
-- `main` of crates/hydr-server/src/main.rs and `Server::run` of crates/hydr-server/src/lib.rs: which
-- listeners the settings start.
use hydr.Base.{
  ◌≡◌, ◌≤◌, ◌+◌, ℕ, arith, refl, ap, Bool-cases, inl, inr, length, List, [], ◌∷◌, ◌++◌, false,
  Option, none, some, ◌&&◌,
}
use hydr.Base.Results.{
  Text, text, Result, ok, err, panic, invalid_data, ok-injective, OnOk, OnOk->>=, OnOk-eq,
}
use hydr.Address.{IpAddr}
use hydr.Settings.{Host, transpose, load}
use hydr.Settings.ServerFile.{
  ServerFile, ServerConfig, QuicListen, WsListen, quic_listen, ws_listen, config_of, main, is_none,
  Listener, quic_listener, ws_listener, metrics_listener, handles, run, next_hop_of,
  resolve_password,
}

module _ (h : Host) where
  open h use {parse_addr}

  -- A listener of the configuration for each one that the settings name, at the address that they parse to.
  pub record Follows (file : ServerFile) (config : ServerConfig) : Type 0 where
    pub password : resolve_password h file ≡ ok config.password
    pub quic : transpose (quic_listen h) file.quic ≡ ok config.quic
    pub ws : transpose (ws_listen h) file.ws ≡ ok config.ws
    pub metrics : transpose parse_addr file.metrics_bind ≡ ok config.metrics_bind

  pub config_of-Follows : (file : ServerFile) → OnOk (Follows file) (config_of h file)
  unfolding config_of
  config_of-Follows file =
      let P : ServerConfig → Type 0 = Follows file in
      OnOk->>= P (resolve_password h file) _ (λ password e.
        OnOk->>= P (transpose (quic_listen h) file.quic) _ (λ quic e1.
          OnOk->>= P (transpose (ws_listen h) file.ws) _ (λ ws e2.
            OnOk->>= P (transpose (next_hop_of h) file.next_hop) _ (λ hop e3.
              OnOk->>= P (transpose parse_addr file.metrics_bind) _
                (λ bind e4. record { password = e; quic = e1; ws = e2; metrics = e4 })))))

abbrev pub count {ℓ} : {A : Type ℓ} → Option A → ℕ
count none = 0
count (some a) = 1

count-transpose :
    {A B : Type 0} (f : A → Result B) (a : Option A) (b : Option B)
    → transpose f a ≡ ok b
    → count a ≡ count b
count-transpose f none b e = ap count (ok-injective e)
count-transpose f (some a) b e =
    OnOk-eq (λ o. count (some a) ≡ count o) (transpose f (some a)) b
      (OnOk->>= (λ o. count (some a) ≡ count o) (f a) _ (λ x found. refl)) e

present :
    {A B : Type 0} (a : Option A) (b : Option B)
    → (is_none a && is_none b) ≡ false
    → 1 ≤ count a + count b
present none none e = absurd (cc)
present none (some b) e = omega arith
present (some a) none e = omega arith
present (some a) (some b) e = omega arith

length-handles :
    (config : ServerConfig)
    → length (handles config) ≡ count config.quic + count config.ws + count config.metrics_bind
unfolding handles
length-handles config = counted config.quic config.ws config.metrics_bind
  where
    counted :
        (quic : Option QuicListen) (ws : Option WsListen) (bind : Option (IpAddr × ℕ))
        → length (
            elim quic [ none ↦ [] | some q ↦ quic_listener q ∷ [] ]
            ++ (elim ws [ none ↦ [] | some w ↦ ws_listener w ∷ [] ]
                ++ elim bind [ none ↦ [] | some b ↦ metrics_listener b ∷ [] ]))
          ≡ count quic + count ws + count bind
    counted none none none = refl
    counted none none (some b) = refl
    counted none (some w) none = refl
    counted none (some w) (some b) = refl
    counted (some q) none none = refl
    counted (some q) none (some b) = refl
    counted (some q) (some w) none = refl
    counted (some q) (some w) (some b) = refl

run-handles :
    (config : ServerConfig) → 1 ≤ length (handles config) → run config ≡ ok (handles config)
unfolding run
run-handles config h = started (handles config) h
  where
    started :
        (ls : List Listener)
        → 1 ≤ length ls
        → (elim ls [
          | [] ↦ err (invalid_data (text "no listeners configured"))
          | l ∷ ls ↦ ok (l ∷ ls)
        ])
          ≡ ok ls
    started [] h = absurd (omega arith)
    started (l ∷ ls) h = refl

module _ (h : Host) (from_str : Text → Result ServerFile) (path : Text) where
  open h use {parse_addr, read_to_string}

  -- What `run` starts for the settings of a file.
  pub record Starts (config : ServerConfig) : Type 0 where
    pub contents : Text
    pub file : ServerFile
    pub loaded : (read_to_string path ≡ ok contents) × (from_str contents ≡ ok file)
    pub follows : Follows h file config
    pub serves : 1 ≤ count file.quic + count file.ws
    pub started : run config ≡ ok (handles config)
    pub each : length (handles config) ≡ count file.quic + count file.ws + count file.metrics_bind

  load-ok :
      OnOk
        (λ file. (t : Text) × (read_to_string path ≡ ok t) × (from_str t ≡ ok file))
        (load h from_str path)
  unfolding load
  load-ok =
      OnOk->>= (λ file. (t : Text) × (read_to_string path ≡ ok t) × (from_str t ≡ ok file))
        (read_to_string path) from_str (λ t e. parsed t e (from_str t) refl)
    where
      parsed :
          (t : Text)
          → read_to_string path ≡ ok t
          → (r : Result ServerFile) → from_str t ≡ r
          → OnOk (λ file. (t : Text) × (read_to_string path ≡ ok t) × (from_str t ≡ ok file)) r
      parsed t e (ok file) e' = (t, e, e')
      parsed t e (err x) e' = tt
      parsed t e panic e' = tt

  main-OnOk : OnOk Starts (main h from_str path)
  unfolding main
  main-OnOk = OnOk->>= Starts (load h from_str path) _ (λ file e.
      OnOk->>= Starts (config_of h file) _ (λ config e'.
        let f : Follows h file config = OnOk-eq _ _ config (config_of-Follows h file) e' in
        let (t, read, parsed) = OnOk-eq _ _ file load-ok e in
        let quic = count-transpose (quic_listen h) file.quic config.quic f.quic in
        let ws = count-transpose (ws_listen h) file.ws config.ws f.ws in
        let bind = count-transpose parse_addr file.metrics_bind config.metrics_bind f.metrics in
        let all = length-handles config in
        elim (Bool-cases (is_none config.quic && is_none config.ws)) [
          | inl absent ↦ rw absent tt
          | inr there ↦
              let some_of : 1 ≤ count config.quic + count config.ws =
                present config.quic config.ws there in
              rw there (record {
                contents = t;
                file = file;
                loaded = (read, parsed);
                follows = f;
                serves = omega arith;
                started = run-handles config (omega arith);
                each = omega arith;
              })
        ]))

  -- Where `main` makes a configuration, the file was read and parsed, the password is the resolved one and every
  -- address that the file names parses; the file has a QUIC or a WebSocket listener, and `run` does not fail for want of one
  -- but starts one task for each listener of the file and for the metrics.
  pub main-Starts : (config : ServerConfig) → main h from_str path ≡ ok config → Starts config
  main-Starts config e = OnOk-eq Starts (main h from_str path) config main-OnOk e
