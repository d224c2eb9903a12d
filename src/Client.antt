-- ===== src/Client.antt =====
-- crates/hydr-client/src/lib.rs: the tunnel of the client and its replacement. The transports are a
-- parameter; what they answer, and when, is part of the `World`. Sleeping is left out, and with it the
-- random factor on the time to sleep. `reconnect` is the run of one task alone; in Client.Turns other
-- tasks come in between its steps.
pub mod Retry
pub mod Turns
pub mod Handles
pub mod Backoff
pub mod Effort
pub mod Relay
pub mod Routes
pub mod Conn
pub mod Gate
use hydr.Base.{
  ℕ, ◌+◌, ◌*◌, ◌%◌, ◌^◌, min, List, [], ◌∷◌, Bool, true, false, Option, none, some, ◌==◌,
  if◌then◌else◌,
}
use hydr.Base.{map}
use hydr.Base.Blake3.{Blake3}
use hydr.Base.Results.{
  Text, text, Result, ok, err, panic, Error, io, stream_closed, unexpected_eof, invalid_data,
  message, auth_failed, unsupported,
}
use hydr.Address.{Address, IpAddr}
use hydr.Fingerprint.{require_fingerprint}
use hydr.Message.{AuthRequest, Datagram, feature_udp}
use hydr.Message.Proof.{new_password}
use hydr.Obfuscator
use hydr.Obfuscator.{Obfuscator}
use hydr.Tunnel.{Transports}
use hydr.Tunnel

pub data ClientTransport : Type 0 where
  quic_transport :
      (addr : IpAddr × ℕ) (server_name : Text) (insecure : Bool) (fingerprint : Option Text)
      → ClientTransport
  ws_transport :
      (url : Text) (insecure : Bool) (obfuscation : Option Text) (fingerprint : Option Text)
      → ClientTransport

-- The parts that are read here.
pub record ClientConfig : Type 0 where
  pub transport : ClientTransport
  pub password : Text
  pub cc_rx : ℕ
  pub socks5_username : Option Text
  pub socks5_password : Option Text

abbrev pub fingerprint_of : ClientTransport → Option Text
fingerprint_of (quic_transport addr server_name insecure fingerprint) = fingerprint
fingerprint_of (ws_transport url insecure obfuscation fingerprint) = fingerprint

-- `obfuscation.clone().map(…)`
abbrev pub obfuscator_of : Blake3 → Option Text → Option Obfuscator
obfuscator_of b3 none = none
obfuscator_of b3 (some k) = some (Obfuscator.new b3 k)

-- `is_transport_error`
unfoldable pub is_transport_error : Error → Bool
is_transport_error (io e) = true
is_transport_error stream_closed = true
is_transport_error unexpected_eof = false
is_transport_error (invalid_data m) = false
is_transport_error (message m) = false
is_transport_error auth_failed = false
is_transport_error unsupported = false

-- In milliseconds.
abbrev pub backoff_start : ℕ
backoff_start = 500

abbrev pub backoff_max : ℕ
backoff_max = 30000

module _ (b3 : Blake3) (T : Transports) where
  open T use {World, QuicTunnel, WsTunnel, Stream, quic_connect, ws_connect}

  unfoldable pub quic_tunnel : Result QuicTunnel × World → Result (Tunnel.Tunnel T) × World
  quic_tunnel (ok t, w) = (ok (Tunnel.quic t), w)
  quic_tunnel (err e, w) = (err e, w)
  quic_tunnel (panic, w) = (panic, w)

  unfoldable pub ws_tunnel : Result WsTunnel × World → Result (Tunnel.Tunnel T) × World
  ws_tunnel (ok t, w) = (ok (Tunnel.ws t), w)
  ws_tunnel (err e, w) = (err e, w)
  ws_tunnel (panic, w) = (panic, w)

  -- Once the fingerprint is read.
  unfoldable pub dial :
      ClientTransport
      → ℕ
      → AuthRequest
      → World
      → Result (Option (List ℕ))
      → Result (Tunnel.Tunnel T) × World
  unfolding quic_tunnel ws_tunnel
  dial (quic_transport addr server_name insecure fingerprint) cc_rx auth w (ok pin) =
      quic_tunnel (quic_connect w addr server_name insecure pin (some cc_rx) auth)
  dial (ws_transport url insecure obfuscation fingerprint) cc_rx auth w (ok pin) =
      ws_tunnel (ws_connect w url insecure pin auth (obfuscator_of b3 obfuscation))
  dial transport cc_rx auth w (err e) = (err e, w)
  dial transport cc_rx auth w panic = (panic, w)

  -- The nonce is the one that is drawn for the request.
  unfoldable pub connect_tunnel : ClientConfig → List ℕ → World → Result (Tunnel.Tunnel T) × World
  unfolding dial
  connect_tunnel config nonce w =
      let auth = new_password b3 config.password config.cc_rx feature_udp nonce in
      dial config.transport config.cc_rx auth w
        (require_fingerprint (fingerprint_of config.transport))

  pub record Client : Type 0 where
    pub config : ClientConfig
    pub tunnel : Tunnel.Tunnel T
    pub handle : Tunnel.TunnelHandle T
    pub tunnel_gen : ℕ

  -- The client with what it talks to.
  abbrev pub State : Type 0
  State = Client × World

  -- The steps of `reconnect` once it has connected: the tunnel is replaced under its lock, the handle under
  -- a lock of its own, and the generation is counted.
  abbrev pub put_tunnel : Tunnel.Tunnel T → Client → Client
  put_tunnel t c = record c { tunnel = t }

  abbrev pub put_handle : Tunnel.TunnelHandle T → Client → Client
  put_handle h c = record c { handle = h }

  abbrev pub count_gen : Client → Client
  count_gen c = record c { tunnel_gen = (c.tunnel_gen + 1) % 2 ^ 64 }

  unfoldable pub replaced : Client → Result (Tunnel.Tunnel T) × World → Result (Unit {0}) × State
  replaced c (ok t, w) =
      (ok tt, (count_gen (put_handle (Tunnel.from_tunnel T t) (put_tunnel t c)), w))
  replaced c (err e, w) = (err e, (c, w))
  replaced c (panic, w) = (panic, (c, w))

  unfoldable pub reconnect : List ℕ → State → Result (Unit {0}) × State
  unfolding replaced connect_tunnel
  reconnect nonce (c, w) = replaced c (connect_tunnel c.config nonce w)

  -- What follows the wait for the lock; `seen` is the generation before it.
  unfoldable pub reconnect_sync : ℕ → List ℕ → State → Result (Unit {0}) × State
  unfolding reconnect
  reconnect_sync seen nonce (c, w) =
      if c.tunnel_gen == seen then reconnect nonce (c, w) else (ok tt, (c, w))

  abbrev pub open_with : Tunnel.TunnelHandle T → Address → State → Result Stream × State
  open_with h addr (c, w) = let (r, w') = Tunnel.open_stream T w h addr in (r, (c, w'))

  -- The second attempt, with the handle that is there now.
  unfoldable pub open_again : Address → Result (Unit {0}) × State → Result Stream × State
  open_again addr (ok done, (c, w)) = open_with c.handle addr (c, w)
  open_again addr (err e, st) = (err e, st)
  open_again addr (panic, st) = (panic, st)

  -- `others` is what the other tasks do between the first attempt and the lock.
  unfoldable pub after_open :
      (State → State) → List ℕ → Address → Result Stream × State → Result Stream × State
  unfolding is_transport_error reconnect_sync open_again
  after_open others nonce addr (ok s, st) = (ok s, st)
  after_open others nonce addr (panic, st) = (panic, st)
  after_open others nonce addr (err e, st) =
      if is_transport_error e
      then open_again addr (reconnect_sync st.0.tunnel_gen nonce (others st))
      else (err e, st)

  unfoldable pub open_stream_resilient :
      (State → State) → List ℕ → Address → State → Result Stream × State
  unfolding after_open
  open_stream_resilient others nonce addr (c, w) =
      after_open others nonce addr (open_with c.handle addr (c, w))

  -- `serve_datagrams`: what is kept from one round to the next, with the datagrams handed to the relay.
  pub record Serving : Type 0 where
    pub backoff : ℕ
    pub state : State
    pub routed : List Datagram

  unfoldable pub after_reconnect : Serving → Result (Unit {0}) × State → Serving
  after_reconnect s (ok done, st) = record s { backoff = backoff_start; state = st }
  after_reconnect s (err e, st) = record s { backoff = min (s.backoff * 2) backoff_max; state = st }
  after_reconnect s (panic, st) = record s { backoff = min (s.backoff * 2) backoff_max; state = st }

  unfoldable pub after_recv : List ℕ → Serving → Result Datagram × World → Serving
  unfolding reconnect after_reconnect
  after_recv nonce s (ok dg, w) = record s { state = (s.state.0, w); routed = dg ∷ s.routed }
  after_recv nonce s (err e, w) = after_reconnect s (reconnect nonce (s.state.0, w))
  after_recv nonce s (panic, w) = record s { state = (s.state.0, w) }

  -- One round of the loop, with the nonce for a new connection.
  unfoldable pub serve_round : Serving → List ℕ → Serving
  unfolding after_recv
  serve_round s nonce =
      let (c, w) = s.state in after_recv nonce s (Tunnel.recv_datagram T w c.tunnel)
