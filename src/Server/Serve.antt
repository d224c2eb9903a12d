-- ===== src/Server/Serve.antt =====
-- crates/hydr-server/src/lib.rs: what the server does with a tunnel and with its streams and datagrams.
-- The transports are a parameter, and so are the connection to a target, with what it ends in, and the
-- table of UDP sessions. Each event of a tunnel is one step; the copying of bytes is left out.
use hydr.Base.{
  ℕ, ◌+◌, ◌%◌, ◌^◌, List, [], ◌∷◌, ◌++◌, Bool, true, false, Option, none, some, if◌then◌else◌,
}
use hydr.Base.Blake3.{Blake3}
use hydr.Base.Results.{Text, text, Result, ok, err, panic, message, invalid_data, to_string}
use hydr.Base.Sets.{Eq}
use hydr.Address.{Address, IpAddr}
use hydr.Fingerprint.{require_fingerprint}
use hydr.Message.{AuthRequest, Datagram, feature_udp, status_ok, status_err, err_connect_failed}
use hydr.Message.Proof.{new_password}
use hydr.Metrics.{incr}
use hydr.Obfuscator
use hydr.Obfuscator.{Obfuscator}
use hydr.Quic.Streams.{Quinn}
use hydr.Server.{Server, rate_allow, try_take_conn, release_conn}
use hydr.Tunnel.{Transports}
use hydr.Tunnel
use hydr.Tunnel.Accepted.{AcceptedStream, reply, reply_with_code}

pub data NextHopTransport : Type 0 where
  quic_hop :
      (addr : IpAddr × ℕ) (server_name : Text) (insecure : Bool) (fingerprint : Option Text)
      → NextHopTransport
  ws_hop : (url : Text) (insecure : Bool) (obfuscation fingerprint : Option Text) → NextHopTransport

pub record NextHop : Type 0 where
  pub transport : NextHopTransport
  pub password : Text

-- What follows `rate_allow` at either listener: whether the connection is taken up.
unfoldable pub admission : ⦃e : Eq (List ℕ)⦄ → Server → ℕ → List ℕ → Server × Bool
unfolding rate_allow
admission s now ip =
    let (s', allowed) = rate_allow s now ip in
    let m = s'.metrics in
    if allowed
    then (s', true)
    else (record s' { metrics = record m { auth_rate_limited = incr m.auth_rate_limited } }, false)

-- `ServerEvent`, a stream by its address.
pub data ServerEvent : Type 0 where
  stream : Address → ServerEvent
  datagram : Datagram → ServerEvent

-- The counters of an event of a tunnel.
unfoldable pub count_event : Server → ServerEvent → Server
count_event s (stream addr) =
    let m = s.metrics in record s { metrics = record m { streams_opened = incr m.streams_opened } }
count_event s (datagram dg) =
    let m = s.metrics in record s { metrics = record m { datagrams_rx = incr m.datagrams_rx } }

unfoldable pub count_events : Server → List ServerEvent → Server
unfolding count_event
count_events s [] = s
count_events s (ev ∷ evs) = count_events (count_event s ev) evs

module _ (b3 : Blake3) (T : Transports) where
  open T use {World, Stream, QuicTunnel, WsTunnel, quic_connect, ws_connect}

  -- The server, the hop behind it, if any, and the handle of the tunnel to that.
  pub record Node : Type 0 where
    pub server : Server
    pub next_hop : Option NextHop
    pub downstream : Option (Tunnel.TunnelHandle T)

  unfoldable pub hop_quic : Result QuicTunnel × World → Result (Tunnel.Tunnel T) × World
  hop_quic (ok t, w) = (ok (Tunnel.quic t), w)
  hop_quic (err e, w) = (err e, w)
  hop_quic (panic, w) = (panic, w)

  unfoldable pub hop_ws : Result WsTunnel × World → Result (Tunnel.Tunnel T) × World
  hop_ws (ok t, w) = (ok (Tunnel.ws t), w)
  hop_ws (err e, w) = (err e, w)
  hop_ws (panic, w) = (panic, w)

  unfoldable pub dial_hop :
      NextHopTransport → AuthRequest → World → Result (Tunnel.Tunnel T) × World
  unfolding hop_quic hop_ws
  dial_hop (quic_hop addr server_name insecure fingerprint) auth w =
      elim (require_fingerprint fingerprint) [
        | ok pin ↦ hop_quic (quic_connect w addr server_name insecure pin none auth)
        | err e ↦ (err e, w)
        | panic ↦ (panic, w)
      ]
  dial_hop (ws_hop url insecure obfuscation fingerprint) auth w =
      elim (require_fingerprint fingerprint) [
        | ok pin ↦
            let ob : Option Obfuscator = elim obfuscation [
              | none ↦ none
              | some k ↦ some (Obfuscator.new b3 k)
            ] in
            hop_ws (ws_connect w url insecure pin auth ob)
        | err e ↦ (err e, w)
        | panic ↦ (panic, w)
      ]

  unfoldable pub connect_next_hop : NextHop → List ℕ → World → Result (Tunnel.Tunnel T) × World
  unfolding dial_hop
  connect_next_hop hop nonce w =
      dial_hop hop.transport (new_password b3 hop.password 0 feature_udp nonce) w

  -- The part of `handle_tunnel` before its loop, on a server that has taken a permit; the Boolean tells
  -- whether the loop is entered. A panic drops the permit and leaves the gauge.
  unfoldable pub chained : Node → Result (Tunnel.Tunnel T) × World → Bool × (Node × World)
  chained n (ok t, w) = (true, (record n { downstream = some (Tunnel.from_tunnel T t) }, w))
  chained n (err e, w) = (false, (record n { server = release_conn n.server }, w))
  chained n (panic, w) =
      let s = n.server in
      (false, (record n { server = record s { conn_permits = s.conn_permits + 1 } }, w))

  unfoldable pub chain : Node → List ℕ → World → Bool × (Node × World)
  unfolding chained connect_next_hop
  chain n nonce w = elim n.next_hop [
    | none ↦ (true, (n, w))
    | some hop ↦ chained n (connect_next_hop hop nonce w)
  ]

  -- The loop up to the end of the tunnel, and the release of the permit.
  unfoldable pub served : List ServerEvent → Bool × (Node × World) → Node × World
  unfolding count_events
  served evs (true, (n, w)) = (record n { server = release_conn (count_events n.server evs) }, w)
  served evs (false, st) = st

  -- `handle_tunnel` of a tunnel on which those events come.
  unfoldable pub handle_tunnel :
      List ServerEvent → List ℕ → Tunnel.Tunnel T → Node × World → Node × World
  unfolding chain served
  handle_tunnel evs nonce t (n, w) =
      let s = n.server in
      let s1 : Server = record s { next_tunnel_id = (s.next_tunnel_id + 1) % 2 ^ 64 } in
      elim (try_take_conn s1) [
        | none ↦ (record n { server = s1 }, Tunnel.close_tunnel T w t)
        | some s2 ↦ served evs (chain (record n { server = s2 }) nonce w)
      ]

  -- How the connection to a target ends.
  pub data Dialled : Type 0 where
    timed_out : Dialled
    refused : Text → Dialled
    dialled : Stream → Dialled

  unfoldable pub peer_of : Dialled → Result Stream
  peer_of timed_out = err (message (text "connect timeout"))
  peer_of (refused e) = err (message (text "connect: " ++ e))
  peer_of (dialled s) = ok s

  unfoldable pub connect_peer :
      (World → Address → Dialled × World) → Node → Address → World → Result Stream × World
  unfolding peer_of
  connect_peer resolve n addr w = elim n.next_hop [
    | none ↦ let (d, w') = resolve w addr in (peer_of d, w')
    | some hop ↦ elim n.downstream [
      | none ↦ (err (invalid_data (text "no next hop")), w)
      | some h ↦ Tunnel.open_stream T w h addr
    ]
  ]

  module _ (q : Quinn) where
    -- The stream to relay to, if the peer was reached and told so.
    unfoldable pub told :
        Stream → Result (Unit {0}) × AcceptedStream q → Option Stream × AcceptedStream q
    told peer (ok done, acc) = (some peer, acc)
    told peer (err e, acc) = (none, acc)
    told peer (panic, acc) = (none, acc)

    unfoldable pub answered : AcceptedStream q → Result Stream → Option Stream × AcceptedStream q
    unfolding told
    answered acc (ok peer) = told peer (reply q acc status_ok [])
    answered acc (err e) =
        (none, (reply_with_code q acc status_err err_connect_failed (to_string e)).1)
    answered acc panic = (none, acc)

    unfoldable pub handle_stream :
        (World → Address → Dialled × World)
        → Node
        → AcceptedStream q
        → World
        → (Option Stream × AcceptedStream q) × World
    unfolding answered connect_peer
    handle_stream resolve n acc w =
        let (r, w') = connect_peer resolve n acc.address w in (answered acc r, w')

  -- `forward` is that of the table of UDP sessions.
  unfoldable pub handle_datagram :
      (World → List ℕ → Datagram → Result (Unit {0}) × World)
      → Node
      → List ℕ
      → Datagram
      → World
      → Result (Unit {0}) × World
  handle_datagram forward n client_ip dg w = elim n.next_hop [
    | none ↦ forward w client_ip dg
    | some hop ↦ elim n.downstream [
      | none ↦ (err (invalid_data (text "no next hop")), w)
      | some h ↦ Tunnel.send_datagram T w h dg
    ]
  ]
