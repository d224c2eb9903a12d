-- ===== src/Server/Listened.antt =====
-- What a connection to the QUIC listener of crates/hydr-server/src/lib.rs comes to, from the rate limit over the
-- authentication to the end of its tunnel.
use hydr.Base.{
  ℕ, ◌+◌, ◌<◌, ◌^◌, ◌≡◌, refl, sym, ap, ◌∙◌, List, [], ◌++◌, Option-cases, true, some, length, inl,
  inr, Bool-cases, subst, append-nil,
}
use hydr.Base.Blake3.{Blake3}
use hydr.Base.Results.{Result, ok, err, panic, ◌>>=◌}
use hydr.Base.Sets.{bytes_eq}
use hydr.Base.Utf8.{ascii}
use hydr.Message.{
  AuthRequest, status_err, encode_auth_request, encode_auth_response, decode_auth_request,
}
use hydr.Message.RoundTrip.{Fits, auth_request-decode-encode}
use hydr.Quic.{read_message, server_handshake, write_len_prefixed}
use hydr.Quic.Handshake.{server_handshake-any_status}
use hydr.Quic.Streams.{Quinn}
use hydr.Quic.Wire.{prefixed, read_message-prefixed}
use hydr.Server.{Server, validate, rate_allow}
use hydr.Server.Auth.{Knows, validate-cases}
use hydr.Server.Listen.{Incoming, answer_with, validated, on_connection, on_incoming}
use hydr.Server.Serve.{Node, ServerEvent, admission, handle_tunnel}
use hydr.Server.Served.{NoPanic, handle_tunnel-balanced}
use hydr.Server.Tunnels.{validate-conns}
use hydr.Tunnel.{Transports}
use hydr.Tunnel

module _ (b3 : Blake3) (T : Transports) (q : Quinn) where
  open q use {Recv, Send, pending}
  open T use {World}

  abbrev Conns : Server → Server → Type 0
  Conns s s' = (s.conn_permits ≡ s'.conn_permits) × (s.conns_active ≡ s'.conns_active)

  admission-Conns : (s : Server) (now : ℕ) (ip : List ℕ) → Conns (admission s now ip).0 s
  unfolding admission rate_allow
  admission-Conns s now ip = elim (Bool-cases (rate_allow s now ip).1) [
    | inl allowed ↦ rw allowed (refl, refl)
    | inr limited ↦ rw limited (refl, refl)
  ]

  validated-Conns : (s : Server) (now : ℕ) (recv : Recv) → Conns (validated b3 T q s now recv) s
  unfolding validated
  validated-Conns s now recv = read (read_message q recv decode_auth_request)
    where
      read :
          (m : Result (AuthRequest × Recv))
          → Conns
              (elim m as (λ x. Server) [
                | ok (req, rest) ↦ (validate b3 s now req).1
                | err e ↦ s
                | panic ↦ s
              ])
              s
      read (ok (req, rest)) = validate-conns b3 s now req
      read (err e) = (refl, refl)
      read panic = (refl, refl)

  handled-Conns :
      (evs : List ServerEvent) (nonce : List ℕ) (i : Incoming b3 T q) (n : Node b3 T) (s : Server)
      (w : World) (m : Result (AuthRequest × (Send × Recv)))
      → Conns s n.server
      → n.server.conns_active + 1 < 2 ^ 64
      → NoPanic b3 T n nonce w
      → let n' : Node b3 T = record n { server = s } in
        Conns
          (elim m as (λ x. Node b3 T × World) [
            | ok done ↦ handle_tunnel b3 T evs nonce (Tunnel.quic i.tunnel) (n', w)
            | err e ↦ (n', w)
            | panic ↦ (n', w)
          ]).0.server
          n.server
  handled-Conns evs nonce i n s w (ok done) (permits, gauge) room calm =
      let n' : Node b3 T = record n { server = s } in
      let (p, a, id) =
        handle_tunnel-balanced b3 T evs nonce (Tunnel.quic i.tunnel) n' w
          (subst (λ k. k + 1 < 2 ^ 64) (sym gauge) room) calm in
      (p ∙ permits, a ∙ gauge)
  handled-Conns evs nonce i n s w (err e) same room calm = same
  handled-Conns evs nonce i n s w panic same room calm = same

  on_connection-Conns :
      (evs : List ServerEvent) (nonce : List ℕ) (i : Incoming b3 T q) (n : Node b3 T) (w : World)
      → n.server.conns_active + 1 < 2 ^ 64
      → NoPanic b3 T n nonce w
      → Conns (on_connection b3 T q evs nonce i (n, w)).0.server n.server
  unfolding on_connection
  on_connection-Conns evs nonce i n w room calm = elim (Option-cases i.stream) [
    | inl lost ↦ rw (lost, on_connection) (refl, refl)
    | inr ((send, recv), e) ↦
        rw (e, on_connection)
          (handled-Conns evs nonce i n (validated b3 T q n.server i.auth_now recv) w
            (server_handshake q (answer_with b3 T q n.server i.auth_now) send recv)
            (validated-Conns n.server i.auth_now recv) room calm)
  ]

  -- Whatever comes in on the QUIC listener, a connection over the rate limit, a handshake that fails, or a tunnel that is
  -- served over any events or not: once it is over, the free permits and the gauge of active connections are what they
  -- were. The hop behind is reached or not without a panic, and the gauge is below 2^64 - 1.
  pub on_incoming-balanced :
      (evs : List ServerEvent) (nonce : List ℕ) (i : Incoming b3 T q) (n : Node b3 T) (w : World)
      → n.server.conns_active + 1 < 2 ^ 64
      → NoPanic b3 T n nonce w
      → ((on_incoming b3 T q evs nonce i (n, w)).0.server.conn_permits ≡ n.server.conn_permits)
        × ((on_incoming b3 T q evs nonce i (n, w)).0.server.conns_active ≡ n.server.conns_active)
  unfolding on_incoming
  on_incoming-balanced evs nonce i n w room calm =
      let (permits, gauge) = admission-Conns n.server i.now i.ip in
      let n' : Node b3 T = record n { server = (admission n.server i.now i.ip).0 } in
      elim (Bool-cases (admission n.server i.now i.ip).1) [
        | inr limited ↦ rw limited (permits, gauge)
        | inl allowed ↦
            let (p, a) =
              on_connection-Conns evs nonce i n' w (subst (λ k. k + 1 < 2 ^ 64) (sym gauge) room)
                calm in
            rw allowed (p ∙ permits, a ∙ gauge)
      ]

  on_connection-handshake :
      (evs : List ServerEvent) (nonce : List ℕ) (i : Incoming b3 T q) (n : Node b3 T) (w : World)
      (send : Send) (recv recv' : Recv) (req : AuthRequest) (done : AuthRequest × (Send × Recv))
      → i.stream ≡ some (send, recv)
      → read_message q recv decode_auth_request ≡ ok (req, recv')
      → server_handshake q (answer_with b3 T q n.server i.auth_now) send recv ≡ ok done
      → on_connection b3 T q evs nonce i (n, w)
        ≡ handle_tunnel b3 T evs nonce
            (Tunnel.quic i.tunnel)
            (record n { server = (validate b3 n.server i.auth_now req).1 }, w)
  unfolding on_connection validated
  on_connection-handshake evs nonce i n w send recv recv' req done e read went =
      rw (e, on_connection, went, read, validated) refl

  -- A peer that is not over the rate limit and sends a request that does not know the password, in the bounds of the format,
  -- is answered with an error, and once the answer is written its tunnel is handled like every other.
  pub on_incoming-unknown :
      (evs : List ServerEvent) (nonce : List ℕ) (i : Incoming b3 T q) (n : Node b3 T) (w : World)
      (send send' : Send) (recv : Recv) (req : AuthRequest) (rest : List ℕ)
      → (admission n.server i.now i.ip).1 ≡ true
      → i.stream ≡ some (send, recv)
      → Fits req
      → length (encode_auth_request [] req) < 2 ^ 62
      → pending recv ≡ prefixed (encode_auth_request [] req) ++ rest
      → ¬ Knows b3 (admission n.server i.now i.ip).0 req
      → write_len_prefixed q send
          (encode_auth_response [] (validate b3 (admission n.server i.now i.ip).0 i.auth_now req).0)
        ≡ ok send'
      → ((validate b3 (admission n.server i.now i.ip).0 i.auth_now req).0.status ≡ status_err)
        × (on_incoming b3 T q evs nonce i (n, w)
            ≡ handle_tunnel b3 T evs nonce (Tunnel.quic i.tunnel) (
              record n {
                server = (validate b3 (admission n.server i.now i.ip).0 i.auth_now req).1;
              },
              w,
            ))
  unfolding on_incoming answer_with
  on_incoming-unknown evs nonce i n w send send' recv req rest allowed e fits short p unknown
        answered =
      let s = (admission n.server i.now i.ip).0 in
      let n' : Node b3 T = record n { server = s } in
      let bytes = encode_auth_request [] req in
      let reads =
        ap decode_auth_request (sym (append-nil bytes)) ∙ auth_request-decode-encode req fits [] in
      let (recv1, read, left1) =
        read_message-prefixed q recv decode_auth_request bytes rest req _ short reads p in
      let (recv', handshake, left) =
        server_handshake-any_status q ascii (answer_with b3 T q s i.auth_now) send recv req
          (validate b3 s i.auth_now req).0 rest fits short p refl in
      (
        elim (validate-cases b3 s i.auth_now req) [
          | inl (knows, same) ↦ absurd (unknown knows)
          | inr (no_way, refused, same, kept) ↦ refused
        ],
        rw allowed (
            on_connection-handshake evs nonce i n' w send recv recv1 req (req, (send', recv')) e
              read (handshake ∙ ap (λ m. m >>= λ t. ok (req, (t, recv'))) answered)),
      )
