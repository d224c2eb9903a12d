-- ===== src/Client/Effort.antt =====
-- `open_stream_resilient` of crates/hydr-client/src/lib.rs: how often it tries.
use hydr.Base.{ℕ, suc, ◌+◌, ◌≤◌, ◌≡◌, refl, arith, List, Bool, Option}
use hydr.Base.{◌==◌, if-All, some}
use hydr.Base.Blake3.{Blake3}
use hydr.Base.Results.{Text, Result, ok, err, panic}
use hydr.Address.{Address, IpAddr}
use hydr.Fingerprint.{require_fingerprint}
use hydr.Message.{AuthRequest, feature_udp}
use hydr.Message.Proof.{new_password}
use hydr.Obfuscator.{Obfuscator}
use hydr.Tunnel.{Transports}
use hydr.Tunnel
use hydr.Client.{
  Client, State, ClientTransport, quic_transport, ws_transport, fingerprint_of, obfuscator_of, dial,
  connect_tunnel, quic_tunnel, ws_tunnel, replaced, reconnect, reconnect_sync, open_with,
  open_again, after_open, open_stream_resilient, is_transport_error,
}

-- A world that counts the streams that were tried and the connections that were tried.
pub record Counted (T : Transports) : Type 0 where
  pub opens : T.World → ℕ
  pub connects : T.World → ℕ
  pub quic_open_counts :
      (w : T.World) (h : T.Connection) (a : Address)
      → (opens (T.quic_open w h a).1 ≡ suc (opens w))
        × (connects (T.quic_open w h a).1 ≡ connects w)
  pub ws_open_counts :
      (w : T.World) (h : T.WsHandle) (a : Address)
      → (opens (T.ws_open w h a).1 ≡ suc (opens w)) × (connects (T.ws_open w h a).1 ≡ connects w)
  pub quic_connect_counts :
      (w : T.World) (addr : IpAddr × ℕ) (name : Text) (insecure : Bool) (pin : Option (List ℕ))
      (cc_rx : Option ℕ) (auth : AuthRequest)
      → (opens (T.quic_connect w addr name insecure pin cc_rx auth).1 ≡ opens w)
        × (connects (T.quic_connect w addr name insecure pin cc_rx auth).1 ≡ suc (connects w))
  pub ws_connect_counts :
      (w : T.World) (url : Text) (insecure : Bool) (pin : Option (List ℕ)) (auth : AuthRequest)
      (ob : Option Obfuscator)
      → (opens (T.ws_connect w url insecure pin auth ob).1 ≡ opens w)
        × (connects (T.ws_connect w url insecure pin auth ob).1 ≡ suc (connects w))

module _ (b3 : Blake3) (T : Transports) (k : Counted T) where
  open T use {World, Stream, QuicTunnel, WsTunnel}
  open k use {
    opens, connects, quic_open_counts, ws_open_counts, quic_connect_counts, ws_connect_counts,
  }

  -- From `w` to `w'` at most so many streams and connections were tried.
  abbrev pub Tries : ℕ → ℕ → World → World → Type 0
  Tries n m w w' = (opens w' ≤ n + opens w) × (connects w' ≤ m + connects w)

  quic_tunnel-world : (x : Result QuicTunnel × World) → (quic_tunnel b3 T x).1 ≡ x.1
  unfolding quic_tunnel
  quic_tunnel-world (ok t, w) = refl
  quic_tunnel-world (err e, w) = refl
  quic_tunnel-world (panic, w) = refl

  ws_tunnel-world : (x : Result WsTunnel × World) → (ws_tunnel b3 T x).1 ≡ x.1
  unfolding ws_tunnel
  ws_tunnel-world (ok t, w) = refl
  ws_tunnel-world (err e, w) = refl
  ws_tunnel-world (panic, w) = refl

  dial-Tries :
      (transport : ClientTransport) (cc_rx : ℕ) (auth : AuthRequest) (w : World)
      (pin : Result (Option (List ℕ)))
      → Tries 0 1 w (dial b3 T transport cc_rx auth w pin).1
  unfolding dial
  dial-Tries (quic_transport addr name insecure fp) cc_rx auth w (ok pin) =
      let (o, c) = quic_connect_counts w addr name insecure pin (some cc_rx) auth in
      rw (quic_tunnel-world (T.quic_connect w addr name insecure pin (some cc_rx) auth))
        (omega (arith, o), omega (arith, c))
  dial-Tries (ws_transport url insecure obfuscation fp) cc_rx auth w (ok pin) =
      let ob = obfuscator_of b3 obfuscation in
      let (o, c) = ws_connect_counts w url insecure pin auth ob in
      rw (ws_tunnel-world (T.ws_connect w url insecure pin auth ob))
        (omega (arith, o), omega (arith, c))
  dial-Tries (quic_transport addr name insecure fp) cc_rx auth w (err e) =
      (omega arith, omega arith)
  dial-Tries (ws_transport url insecure obfuscation fp) cc_rx auth w (err e) =
      (omega arith, omega arith)
  dial-Tries (quic_transport addr name insecure fp) cc_rx auth w panic = (omega arith, omega arith)
  dial-Tries (ws_transport url insecure obfuscation fp) cc_rx auth w panic =
      (omega arith, omega arith)

  replaced-world :
      (c : Client b3 T) (x : Result (Tunnel.Tunnel T) × World) → (replaced b3 T c x).1.1 ≡ x.1
  unfolding replaced
  replaced-world c (ok t, w) = refl
  replaced-world c (err e, w) = refl
  replaced-world c (panic, w) = refl

  reconnect_sync-Tries :
      (seen : ℕ) (nonce : List ℕ) (st : State b3 T)
      → Tries 0 1 st.1 (reconnect_sync b3 T seen nonce st).1.1
  unfolding reconnect_sync reconnect connect_tunnel
  reconnect_sync-Tries seen nonce (c, w) =
      let auth = new_password b3 c.config.password c.config.cc_rx feature_udp nonce in
      let pin = require_fingerprint (fingerprint_of c.config.transport) in
      let dialled = dial b3 T c.config.transport c.config.cc_rx auth w pin in
      if-All (λ (x : Result (Unit {0}) × State b3 T). Tries 0 1 w x.1.1) (c.tunnel_gen == seen)
        (λ same.
          rw (replaced-world c dialled) (dial-Tries c.config.transport c.config.cc_rx auth w pin))
        (omega arith, omega arith)

  open_with-Tries :
      (h : Tunnel.TunnelHandle T) (addr : Address) (st : State b3 T)
      → Tries 1 0 st.1 (open_with b3 T h addr st).1.1
  unfolding Tunnel.open_stream
  open_with-Tries (Tunnel.quic_handle conn) addr (c, w) =
      let (o, c) = quic_open_counts w conn addr in (omega (arith, o), omega (arith, c))
  open_with-Tries (Tunnel.ws_handle h) addr (c, w) =
      let (o, c) = ws_open_counts w h addr in (omega (arith, o), omega (arith, c))

  open_again-Tries :
      (addr : Address) (x : Result (Unit {0}) × State b3 T)
      → Tries 1 0 x.1.1 (open_again b3 T addr x).1.1
  unfolding open_again
  open_again-Tries addr (ok done, (c, w)) = open_with-Tries c.handle addr (c, w)
  open_again-Tries addr (err e, st) = (omega arith, omega arith)
  open_again-Tries addr (panic, st) = (omega arith, omega arith)

  after_open-Tries :
      (others : State b3 T → State b3 T) (nonce : List ℕ) (addr : Address)
      (x : Result Stream × State b3 T)
      → ((st : State b3 T) → Tries 0 0 st.1 (others st).1)
      → Tries 1 1 x.1.1 (after_open b3 T others nonce addr x).1.1
  unfolding after_open
  after_open-Tries others nonce addr (ok s, st) still = (omega arith, omega arith)
  after_open-Tries others nonce addr (panic, st) still = (omega arith, omega arith)
  after_open-Tries others nonce addr (err e, st) still =
      let synced = reconnect_sync b3 T st.0.tunnel_gen nonce (others st) in
      let (o, c) = still st in
      let (o', c') = reconnect_sync-Tries st.0.tunnel_gen nonce (others st) in
      let (o'', c'') = open_again-Tries addr synced in
      if-All (λ (x : Result Stream × State b3 T). Tries 1 1 st.1 x.1.1) (is_transport_error e)
        (λ broken. (omega (arith, o, o', o''), omega (arith, c, c', c'')))
        (omega arith, omega arith)

  -- A call that opens a stream makes two attempts to open one and one to connect, at most, where the other tasks
  -- make none meanwhile.
  pub open_stream_resilient-bounds :
      (others : State b3 T → State b3 T) (nonce : List ℕ) (addr : Address) (st : State b3 T)
      → ((st : State b3 T) → Tries 0 0 st.1 (others st).1)
      → Tries 2 1 st.1 (open_stream_resilient b3 T others nonce addr st).1.1
  unfolding open_stream_resilient
  open_stream_resilient-bounds others nonce addr (c, w) still =
      let (o, c') = open_with-Tries c.handle addr (c, w) in
      let (o', c'') =
        after_open-Tries others nonce addr (open_with b3 T c.handle addr (c, w)) still in
      (omega (arith, o, o'), omega (arith, c', c''))
