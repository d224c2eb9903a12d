-- ===== src/Tests/Guards.antt =====
-- The theorems about the server's checks, its limits and the replay filters at concrete inputs.
use hydr.Base.{ℕ, ◌+◌, ◌≡◌, ◌↔◌, refl, arith, List, [], ◌∷◌, length, not, leb, false}
use hydr.Base.Blake3.{toy}
use hydr.Base.Results.{text}
use hydr.Base.Sets.{contains, bytes_eq, nat_eq}
use hydr.Message.{AuthRequest, status_ok}
use hydr.Message.Proof.{new_password}
use hydr.Metrics
use hydr.Metrics.{incr}
use hydr.Nonce
use hydr.Nonce.{NonceCache, insert, evict_expired, keys, replay_ttl, seconds, evict_from, shrink}
use hydr.Nonce.Valid.{IsValid, new-IsValid}
use hydr.Server.{
  Config, Server, validate, check_nonce, nonce_seen, recent, rate_allow, auth_max_per_ip,
  try_take_conn,
}
use hydr.Server
use hydr.Server.Auth.{Knows, validate_iff, validate_all, validate-replay}
use hydr.Server.Rate.{InOrder, rate_all, rate_allow-window}
use hydr.Server.Tunnels.{Holds, start, take_conn, limit, Holds-conserved}

abbrev config : Config
config = record { password = text "secret"; cc_rx = 0; max_conns = 1 }

abbrev server : Server
server = Server.new config Metrics.new

abbrev nonce : List ℕ
nonce = 1 ∷ 2 ∷ 3 ∷ 4 ∷ 5 ∷ 6 ∷ 7 ∷ 8 ∷ []

abbrev honest : AuthRequest
honest = new_password toy (text "secret") 0 1 nonce

server-IsValid : IsValid server.replay_nonces
unfolding Server.new
server-IsValid = new-IsValid 8192

validate_iff_example : ((validate toy server 5 honest).0.status ≡ status_ok) ↔ (
    Knows toy server honest
    × (contains honest.client_nonce (keys (evict_expired server.replay_nonces 5).order) ≡ false))
validate_iff_example = validate_iff toy server 5 honest server-IsValid

honest-Knows : Knows toy server honest
unfolding Server.new new_password
honest-Knows = (refl, omega arith, refl)

honest_fresh :
    contains honest.client_nonce (keys (evict_expired server.replay_nonces 5).order) ≡ false
unfolding Server.new Nonce.new evict_expired evict_from
honest_fresh = refl

honest_accepted : (validate toy server 5 honest).0.status ≡ status_ok
honest_accepted = validate_iff_example.1 (honest-Knows, honest_fresh)

-- A request without the password in between.
abbrev stranger : AuthRequest
stranger = new_password toy (text "guess") 0 1 nonce

validate-replay_example : ¬ (
    (validate toy
      (validate_all toy (validate toy server 5 honest).1 ((6, stranger) ∷ []))
      7
      honest).0.status
    ≡ status_ok)
unfolding Server.new Nonce.new
validate-replay_example =
    validate-replay toy server 5 7 honest honest ((6, stranger) ∷ []) server-IsValid honest_accepted
      (omega arith, tt) (omega arith) (omega arith) refl

abbrev home : List ℕ
home = 127 ∷ 0 ∷ 0 ∷ 1 ∷ []

abbrev calls : List (ℕ × List ℕ)
calls = (1, home) ∷ ((2, 10 ∷ 0 ∷ 0 ∷ 9 ∷ []) ∷ ((3, home) ∷ []))

calls-InOrder : InOrder 0 calls 9
calls-InOrder = (omega arith, (omega arith, (omega arith, omega arith)))

rate_allow-window_example :
    (rate_allow (rate_all (Server.new config Metrics.new) home [] calls).0 9 home).1
    ≡ not (
        leb auth_max_per_ip
          (length (recent 9 (rate_all (Server.new config Metrics.new) home [] calls).1)))
rate_allow-window_example = rate_allow-window config Metrics.new home calls 9 calls-InOrder

-- One tunnel is open, which is the limit.
abbrev busy : Server
busy = record server { conn_permits = 0; conns_active = 1 }

busy-Holds : Holds toy config 1 busy
unfolding Server.new try_take_conn incr
busy-Holds = take_conn (start Metrics.new) refl

Holds-conserved_example : (busy.conns_active ≡ 1) × (busy.conn_permits + 1 ≡ limit config)
Holds-conserved_example = Holds-conserved toy config (omega arith) busy-Holds
