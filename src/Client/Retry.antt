-- ===== src/Client/Retry.antt =====
-- crates/hydr-client/src/lib.rs: how often the tasks that wait for the lock connect.
use hydr.Base.{ℕ, ◌+◌, ◌<◌, ◌%◌, ◌^◌, ◌≡◌, refl, sym, ap, ◌∙◌, arith, List, [], ◌∷◌, false}
use hydr.Base.{◌==◌, ==_refl}
use hydr.Base.Blake3.{Blake3}
use hydr.Base.Results.{Result, ok, err, panic}
use hydr.Tunnel.{Transports}
use hydr.Tunnel
use hydr.Client.{Client, State, connect_tunnel, replaced, reconnect, reconnect_sync}

module _ (b3 : Blake3) (T : Transports) where
  open T use {World}

  -- The tasks that have seen one generation, in the order in which they get the lock.
  unfoldable pub reconnect_all : ℕ → List (List ℕ) → State b3 T → State b3 T
  unfolding reconnect_sync
  reconnect_all seen [] st = st
  reconnect_all seen (nonce ∷ nonces) st =
      reconnect_all seen nonces (reconnect_sync b3 T seen nonce st).1

  abbrev carry_on : Result (Unit {0}) → State b3 T → State b3 T → State b3 T
  carry_on (ok done) st rest = st
  carry_on (err e) st rest = rest
  carry_on panic st rest = rest

  -- Attempts to connect up to the first that succeeds.
  unfoldable pub until_connected : List (List ℕ) → State b3 T → State b3 T
  unfolding reconnect
  until_connected [] st = st
  until_connected (nonce ∷ nonces) st =
      let (r, st') = reconnect b3 T nonce st in carry_on r st' (until_connected nonces st')

  reconnect_all-newer :
      (seen : ℕ) (nonces : List (List ℕ)) (st : State b3 T)
      → (st.0.tunnel_gen == seen) ≡ false
      → reconnect_all seen nonces st ≡ st
  unfolding reconnect_all reconnect_sync
  reconnect_all-newer seen [] st h = refl
  reconnect_all-newer seen (nonce ∷ nonces) (c, w) h =
      rw (h, reconnect_all) (reconnect_all-newer seen nonces (c, w) h)

  -- A generation and its successor differ.
  newer_lem : (g : ℕ) → g < 2 ^ 64 → (((g + 1) % 2 ^ 64) == g) ≡ false
  newer_lem g h = ground arith

  -- What a reconnection comes to: a new generation, or the client as it was.
  abbrev Replaces : Client b3 T → Result (Unit {0}) × State b3 T → Type 0
  Replaces c (ok done, (c', w)) = c'.tunnel_gen ≡ (c.tunnel_gen + 1) % 2 ^ 64
  Replaces c (err e, (c', w)) = c' ≡ c
  Replaces c (panic, (c', w)) = c' ≡ c

  replaced-Replaces :
      (c : Client b3 T) (x : Result (Tunnel.Tunnel T) × World) → Replaces c (replaced b3 T c x)
  unfolding replaced
  replaced-Replaces c (ok t, w) = refl
  replaced-Replaces c (err e, w) = refl
  replaced-Replaces c (panic, w) = refl

  reconnect-Replaces : (nonce : List ℕ) (st : State b3 T) → Replaces st.0 (reconnect b3 T nonce st)
  unfolding reconnect
  reconnect-Replaces nonce (c, w) = replaced-Replaces c (connect_tunnel b3 T c.config nonce w)

  reconnect_all-attempt :
      (nonces : List (List ℕ)) (c : Client b3 T) (x : Result (Unit {0}) × State b3 T)
      → ((st : State b3 T)
          → st.0.tunnel_gen < 2 ^ 64
          → reconnect_all st.0.tunnel_gen nonces st ≡ until_connected nonces st)
      → Replaces c x
      → c.tunnel_gen < 2 ^ 64
      → reconnect_all c.tunnel_gen nonces x.1 ≡ carry_on x.0 x.1 (until_connected nonces x.1)
  reconnect_all-attempt nonces c (ok done, st) rest gen h =
      reconnect_all-newer c.tunnel_gen nonces st
        (ap (λ g. g == c.tunnel_gen) gen ∙ newer_lem c.tunnel_gen h)
  reconnect_all-attempt nonces c (err e, st) rest same h =
      ap (λ (c' : Client b3 T). reconnect_all c'.tunnel_gen nonces st) (sym same)
      ∙ rest st (rw same h)
  reconnect_all-attempt nonces c (panic, st) rest same h =
      ap (λ (c' : Client b3 T). reconnect_all c'.tunnel_gen nonces st) (sym same)
      ∙ rest st (rw same h)

  -- From a generation below 2^64 on, the tasks that all saw it make the attempts that one task would make up to its
  -- first success, and none after that.
  pub reconnect_all-until :
      (nonces : List (List ℕ)) (st : State b3 T)
      → st.0.tunnel_gen < 2 ^ 64
      → reconnect_all st.0.tunnel_gen nonces st ≡ until_connected nonces st
  unfolding reconnect_all reconnect_sync until_connected
  reconnect_all-until [] st h = refl
  reconnect_all-until (nonce ∷ nonces) (c, w) h =
      rw (==_refl c.tunnel_gen, reconnect_all)
        (reconnect_all-attempt nonces c (reconnect b3 T nonce (c, w)) (reconnect_all-until nonces)
          (reconnect-Replaces nonce (c, w)) h)
