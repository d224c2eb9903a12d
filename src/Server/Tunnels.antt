-- ===== src/Server/Tunnels.antt =====
-- `try_take_conn` and `release_conn` of crates/hydr-server/src/lib.rs: every accepted tunnel holds one
-- permit of the semaphore, and the gauge of active connections counts them.
use hydr.Base.{ℕ, suc, ◌+◌, ◌-◌, ◌^◌, ◌<◌, ◌≡◌, ◌↔◌, refl, ◌∙◌, arith}
use hydr.Base.{
  ltb, if◌then◌else◌, ◌==◌, ltb→lt, length, Bool-cases, inl, inr, some, none, some-injective,
}
use hydr.Base.Blake3.{Blake3}
use hydr.Message.{AuthRequest, protocol_version}
use hydr.Message.Proof.{compute_auth_proof, ct_eq}
use hydr.Nonce.{insert}
use hydr.Metrics.{Metrics, incr, decr}
use hydr.Server.{
  Config, Server, new, nonce_seen, check_nonce, validate, try_take_conn, release_conn,
  default_max_conns,
}

-- The servers that calls lead to from a new one, with the number of tunnels that hold a permit. The
-- code releases once for each permit that it took.
pub data Holds (b3 : Blake3) (config : Config) : ℕ → Server → Type 0 where
  start : (metrics : Metrics) → Holds b3 config 0 (new config metrics)
  take_conn :
      {k : ℕ} {s s' : Server}
      → Holds b3 config k s
      → try_take_conn s ≡ some s'
      → Holds b3 config (suc k) s'
  drop_conn : {k : ℕ} {s : Server} → Holds b3 config (suc k) s → Holds b3 config k (release_conn s)
  answer :
      {k : ℕ} {s : Server} (now : ℕ) (req : AuthRequest)
      → Holds b3 config k s
      → Holds b3 config k (validate b3 s now req).1

pub validate-conns :
    (b3 : Blake3) (s : Server) (now : ℕ) (req : AuthRequest)
    → ((validate b3 s now req).1.conn_permits ≡ s.conn_permits)
      × ((validate b3 s now req).1.conns_active ≡ s.conns_active)
unfolding validate check_nonce nonce_seen
validate-conns b3 s now req =
    let expected = compute_auth_proof b3 s.config.password req.client_nonce in
    elim (Bool-cases (req.version == protocol_version)) [
      | inr other ↦ rw other (refl, refl)
      | inl same ↦ elim (Bool-cases (ltb (length req.client_nonce) 8)) [
        | inl short ↦ rw (same, short) (refl, refl)
        | inr room ↦ elim (Bool-cases (ct_eq expected req.auth_proof)) [
          | inr wrong ↦ rw (same, room, wrong) (refl, refl)
          | inl right ↦ elim (Bool-cases (insert s.replay_nonces now req.client_nonce).1) [
            | inl fresh ↦ rw (same, room, right, fresh) (refl, refl)
            | inr seen ↦ rw (same, room, right, seen) (refl, refl)
          ]
        ]
      ]
    ]

-- The permits that a new server has.
abbrev pub limit : Config → ℕ
limit config = if config.max_conns == 0 then default_max_conns else config.max_conns

-- The gauge is the number of held permits, which with the free ones are always the limit.
pub Holds-conserved :
    (b3 : Blake3) (config : Config) {k : ℕ} {s : Server}
    → limit config < 2 ^ 64
    → Holds b3 config k s
    → (s.conns_active ≡ k) × (s.conn_permits + k ≡ limit config)
unfolding new try_take_conn release_conn incr decr
Holds-conserved b3 config h (start metrics) = (refl, omega arith)
Holds-conserved b3 config h (take_conn {k} {s} {s'} held taken) =
    let (active, total) = Holds-conserved b3 config h held in
    elim (Bool-cases (ltb 0 s.conn_permits)) [
      | inl free ↦
          let p : record s { conn_permits = s.conn_permits - 1; conns_active = incr s.conns_active }
              ≡ s' =
            some-injective _ _ (rw free at taken) in
          let some_left = ltb→lt 0 s.conn_permits free in
          rw (← p) (rw active (omega arith), omega arith)
      | inr full ↦ let no_way : none ≡ some s' = rw full at taken in absurd (cc)
    ]
Holds-conserved b3 config h (drop_conn {k} {s} held) =
    let (active, total) = Holds-conserved b3 config h held in (rw active (omega arith), omega arith)
Holds-conserved b3 config h (answer {k} {s} now req held) =
    let (active, total) = Holds-conserved b3 config h held in
    let (same_permits, same_active) = validate-conns b3 s now req in
    (same_active ∙ active, rw same_permits total)

-- A tunnel is turned away exactly if as many as the limit are open.
pub try_take_conn-refused :
    (b3 : Blake3) (config : Config) {k : ℕ} {s : Server}
    → limit config < 2 ^ 64
    → Holds b3 config k s
    → (try_take_conn s ≡ none) ↔ (k ≡ limit config)
unfolding try_take_conn
try_take_conn-refused b3 config {k} {s} h held =
    let (active, total) = Holds-conserved b3 config h held in
    elim (Bool-cases (ltb 0 s.conn_permits)) [
      | inl free ↦
          let some_left = ltb→lt 0 s.conn_permits free in
          (
            (λ p. let no_way : some _ ≡ none = rw free at p in absurd (cc)),
            λ e. absurd (omega arith),
          )
      | inr full ↦ rw full ((λ p. ground (arith, full, total)), λ e. refl)
    ]
