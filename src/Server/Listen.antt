-- ===== src/Server/Listen.antt =====
-- `run_quic_endpoint` of crates/hydr-server/src/lib.rs: what is done with a connection that comes in. The QUIC handshake and
-- the streams of the connection are those of quinn.
use hydr.Base.{ℕ, List, Option, none, some, if◌then◌else◌}
use hydr.Base.Blake3.{Blake3}
use hydr.Base.Results.{Result, ok, err, panic}
use hydr.Base.Sets.{bytes_eq}
use hydr.Message.{AuthRequest, decode_auth_request}
use hydr.Quic.{read_message, server_handshake}
use hydr.Quic.Streams.{Quinn}
use hydr.Server.{Server, validate}
use hydr.Server.Serve.{Node, ServerEvent, admission, handle_tunnel}
use hydr.Tunnel.{Transports}
use hydr.Tunnel

module _ (b3 : Blake3) (T : Transports) (q : Quinn) where
  open q use {Recv, Send}
  open T use {World, QuicTunnel}

  -- A connection: its address, the instants of the two checks, the stream that it opens for the
  -- authentication, if it gets that far, and the tunnel that is made of it.
  pub record Incoming : Type 0 where
    pub ip : List ℕ
    pub now : ℕ
    pub auth_now : ℕ
    pub stream : Option (Send × Recv)
    pub tunnel : QuicTunnel

  -- `validate` as the handshake calls it, and what it leaves of the server if it is called.
  unfoldable pub answer_with : Server → ℕ → AuthRequest → Result (hydr.Message.AuthResponse)
  answer_with s now req = ok (validate b3 s now req).0

  unfoldable pub validated : Server → ℕ → Recv → Server
  validated s now recv = elim (read_message q recv decode_auth_request) [
    | ok (req, rest) ↦ (validate b3 s now req).1
    | err e ↦ s
    | panic ↦ s
  ]

  -- The task of a connection that was let in; the events are those of the tunnel, if it is served.
  unfoldable pub on_connection :
      List ServerEvent → List ℕ → Incoming → Node b3 T × World → Node b3 T × World
  unfolding answer_with validated
  on_connection evs nonce i (n, w) = elim i.stream [
    | none ↦ (n, w)
    | some (send, recv) ↦
        let n' : Node b3 T = record n { server = validated n.server i.auth_now recv } in
        elim (server_handshake q (answer_with n.server i.auth_now) send recv) [
          | ok done ↦ handle_tunnel b3 T evs nonce (Tunnel.quic i.tunnel) (n', w)
          | err e ↦ (n', w)
          | panic ↦ (n', w)
        ]
  ]

  -- A round of the loop that accepts, with the task that it spawns.
  unfoldable pub on_incoming :
      List ServerEvent → List ℕ → Incoming → Node b3 T × World → Node b3 T × World
  unfolding on_connection
  on_incoming evs nonce i (n, w) =
      let (s, allowed) = admission n.server i.now i.ip in
      let n' : Node b3 T = record n { server = s } in
      if allowed then on_connection evs nonce i (n', w) else (n', w)
