-- ===== src/Client/Backoff.antt =====
-- `serve_datagrams` of crates/hydr-client/src/lib.rs: the time between two attempts to reconnect.
use hydr.Base.{ℕ, suc, ◌+◌, ◌*◌, ◌^◌, ◌≡◌, min, refl, ap, ◌∙◌, arith, List, [], ◌∷◌}
use hydr.Base.Blake3.{Blake3}
use hydr.Base.Results.{Result, ok, err, panic}
use hydr.Message.{Datagram}
use hydr.Tunnel.{Transports}
use hydr.Tunnel
use hydr.Client.{
  State, reconnect, Serving, after_reconnect, after_recv, serve_round, backoff_start, backoff_max,
}
use native.Mathlib.Nat.{pow-suc}

add_one : (k : ℕ) → k + 1 ≡ suc k
add_one k = omega arith

abbrev next_streak : ℕ → Result (Unit {0}) → ℕ
next_streak k (ok done) = 0
next_streak k (err e) = k + 1
next_streak k panic = k + 1

-- The time after `k` failures.
abbrev pub doubled : ℕ → ℕ
doubled k = min (backoff_start * 2 ^ k) backoff_max

doubled_suc : (k : ℕ) → min (doubled k * 2) backoff_max ≡ doubled (k + 1)
doubled_suc k =
    let twice : 2 ^ (k + 1) ≡ 2 ^ k * 2 = ap (λ n. 2 ^ n) (add_one k) ∙ pow-suc 2 k in
    rw twice (ground arith)

module _ (b3 : Blake3) (T : Transports) where
  open T use {World}

  unfoldable pub serve_rounds : Serving b3 T → List (List ℕ) → Serving b3 T
  unfolding serve_round
  serve_rounds s [] = s
  serve_rounds s (nonce ∷ nonces) = serve_rounds (serve_round b3 T s nonce) nonces

  -- The failed attempts to reconnect since the last that succeeded, after one more round.
  unfoldable pub streak_after : List ℕ → Serving b3 T → ℕ → Result Datagram × World → ℕ
  unfolding reconnect
  streak_after nonce s k (ok dg, w) = k
  streak_after nonce s k (err e, w) = next_streak k (reconnect b3 T nonce (s.state.0, w)).0
  streak_after nonce s k (panic, w) = k

  unfoldable pub streak : ℕ → Serving b3 T → List (List ℕ) → ℕ
  unfolding streak_after
  streak k s [] = k
  streak k s (nonce ∷ nonces) =
      let (c, w) = s.state in
      streak (streak_after nonce s k (Tunnel.recv_datagram T w c.tunnel)) (serve_round b3 T s nonce)
        nonces

  after_reconnect-doubled :
      (s : Serving b3 T) (k : ℕ) (x : Result (Unit {0}) × State b3 T)
      → s.backoff ≡ doubled k
      → (after_reconnect b3 T s x).backoff ≡ doubled (next_streak k x.0)
  unfolding after_reconnect
  after_reconnect-doubled s k (ok done, st) h = refl
  after_reconnect-doubled s k (err e, st) h = rw h (doubled_suc k)
  after_reconnect-doubled s k (panic, st) h = rw h (doubled_suc k)

  after_recv-doubled :
      (nonce : List ℕ) (s : Serving b3 T) (k : ℕ) (x : Result Datagram × World)
      → s.backoff ≡ doubled k
      → (after_recv b3 T nonce s x).backoff ≡ doubled (streak_after nonce s k x)
  unfolding after_recv streak_after
  after_recv-doubled nonce s k (ok dg, w) h = h
  after_recv-doubled nonce s k (err e, w) h =
      after_reconnect-doubled s k (reconnect b3 T nonce (s.state.0, w)) h
  after_recv-doubled nonce s k (panic, w) h = h

  -- However many rounds the loop has made, the time to the next attempt is 500 milliseconds doubled for each failed
  -- attempt since the last that succeeded, and 30 seconds at most.
  pub serve_rounds-backoff :
      (nonces : List (List ℕ)) (s : Serving b3 T) (k : ℕ)
      → s.backoff ≡ doubled k
      → (serve_rounds s nonces).backoff ≡ doubled (streak k s nonces)
  unfolding serve_rounds streak serve_round
  serve_rounds-backoff [] s k h = h
  serve_rounds-backoff (nonce ∷ nonces) s k h =
      let (c, w) = s.state in
      let x = Tunnel.recv_datagram T w c.tunnel in
      serve_rounds-backoff nonces (serve_round b3 T s nonce) (streak_after nonce s k x)
        (after_recv-doubled nonce s k x h)
