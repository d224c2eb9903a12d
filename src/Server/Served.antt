-- ===== src/Server/Served.antt =====
-- crates/hydr-server/src/lib.rs: a tunnel gives back what it took, and each stream is answered once.
use hydr.Base.{
  ℕ, ◌+◌, ◌-◌, ◌%◌, ◌^◌, ◌<◌, ◌≡◌, ◌≢◌, refl, ap, ◌∙◌, arith, List, [], ◌∷◌, ◌++◌, true, false,
}
use hydr.Base.{Option, none, some, ltb, ltb→lt, Option-cases, Bool-cases, inl, inr}
use hydr.Base.Blake3.{Blake3}
use hydr.Base.Results.{Result, ok, err, panic, stream_closed, to_string}
use hydr.Address.{Address}
use hydr.Message.{status_ok, status_err, err_connect_failed}
use hydr.Metrics.{incr, decr}
use hydr.Quic.Streams.{Quinn}
use hydr.Server.{Server, try_take_conn, release_conn}
use hydr.Server.Serve.{
  ServerEvent, stream, datagram, count_event, count_events, Node, NextHop, connect_next_hop,
  chained, chain, served, handle_tunnel, Dialled, connect_peer, answered, told, handle_stream,
}
use hydr.Tunnel.{Transports}
use hydr.Tunnel
use hydr.Tunnel.Accepted.{AcceptedStream, ws_inner, reply, reply_with_code, reply_open}
use hydr.Ws.Run.{Cmd, reply_open_cmd, close_cmd}

-- The permits and the gauge.
abbrev Alike : Server → Server → Type 0
Alike s' s =
    (s'.conn_permits ≡ s.conn_permits)
    × (s'.conns_active ≡ s.conns_active)
    × (s'.next_tunnel_id ≡ s.next_tunnel_id)

count_event-Alike : (s : Server) (ev : ServerEvent) → Alike (count_event s ev) s
unfolding count_event
count_event-Alike s (stream addr) = (refl, refl, refl)
count_event-Alike s (datagram dg) = (refl, refl, refl)

count_events-Alike : (evs : List ServerEvent) (s : Server) → Alike (count_events s evs) s
unfolding count_events
count_events-Alike [] s = (refl, refl, refl)
count_events-Alike (ev ∷ evs) s =
    let (p, a, i) = count_events-Alike evs (count_event s ev) in
    let (p', a', i') = count_event-Alike s ev in (p ∙ p', a ∙ a', i ∙ i')

-- A permit that was taken is back.
abbrev Released : Server → Server → Type 0
Released s' s =
    (s'.conn_permits ≡ s.conn_permits + 1)
    × (s'.conns_active ≡ decr s.conns_active)
    × (s'.next_tunnel_id ≡ s.next_tunnel_id)

release_conn-Released : (s' s : Server) → Alike s' s → Released (release_conn s') s
unfolding release_conn
release_conn-Released s' s (p, a, i) = (ap (λ n. n + 1) p, ap decr a, i)

reply_again :
    (q : Quinn) (acc : AcceptedStream q) (id : ℕ) (cmds : List Cmd) (status : ℕ) (more : List ℕ)
    → acc.inner ≡ ws_inner id false true cmds
    → reply q acc status more ≡ (err stream_closed, acc)
unfolding reply reply_with_code reply_open
reply_again q acc id cmds status more e = rw e refl

module _ (b3 : Blake3) (T : Transports) where
  open T use {World, Stream}

  served-Released :
      (evs : List ServerEvent) (n : Node b3 T) (x : Result (Tunnel.Tunnel T) × World)
      → x.0 ≢ panic
      → Released (served b3 T evs (chained b3 T n x)).0.server n.server
  unfolding served chained
  served-Released evs n (ok t, w) h =
      release_conn-Released (count_events n.server evs) n.server (count_events-Alike evs n.server)
  served-Released evs n (err e, w) h = release_conn-Released n.server n.server (refl, refl, refl)
  served-Released evs n (panic, w) h = absurd (h refl)

  -- The connection to the hop behind, where there is one, does not panic.
  abbrev pub NoPanic : Node b3 T → List ℕ → World → Type 0
  NoPanic n nonce w =
      (hop : NextHop) → n.next_hop ≡ some hop → (connect_next_hop b3 T hop nonce w).0 ≢ panic

  served-chain-Released :
      (evs : List ServerEvent) (n : Node b3 T) (nonce : List ℕ) (w : World)
      → NoPanic n nonce w
      → Released (served b3 T evs (chain b3 T n nonce w)).0.server n.server
  unfolding served chain
  served-chain-Released evs n nonce w h = elim (Option-cases n.next_hop) [
    | inl direct ↦
        rw (direct, chain)
          (release_conn-Released (count_events n.server evs) n.server
            (count_events-Alike evs n.server))
    | inr (hop, e) ↦
        rw (e, chain) (served-Released evs n (connect_next_hop b3 T hop nonce w) (h hop e))
  ]

  -- Whether a tunnel is refused for want of a permit, or fails to reach the hop behind, or is served over any
  -- events: once it is over, the permits and the gauge of active connections are what they were, and its number is used up.
  -- The hop behind is reached or not without a panic, and the gauge is below 2^64 - 1.
  pub handle_tunnel-balanced :
      (evs : List ServerEvent) (nonce : List ℕ) (t : Tunnel.Tunnel T) (n : Node b3 T) (w : World)
      → n.server.conns_active + 1 < 2 ^ 64
      → NoPanic n nonce w
      → ((handle_tunnel b3 T evs nonce t (n, w)).0.server.conn_permits ≡ n.server.conn_permits)
        × ((handle_tunnel b3 T evs nonce t (n, w)).0.server.conns_active ≡ n.server.conns_active)
        × ((handle_tunnel b3 T evs nonce t (n, w)).0.server.next_tunnel_id
            ≡ (n.server.next_tunnel_id + 1) % 2 ^ 64)
  unfolding handle_tunnel try_take_conn incr decr
  handle_tunnel-balanced evs nonce t n w h safe = elim (Bool-cases (ltb 0 n.server.conn_permits)) [
    | inr full ↦ rw (full, handle_tunnel) (refl, refl, refl)
    | inl free ↦
        let s : Server = n.server in
        let s2 : Server = record s {
          next_tunnel_id = (s.next_tunnel_id + 1) % 2 ^ 64;
          conn_permits = s.conn_permits - 1;
          conns_active = incr s.conns_active;
        } in
        let some_left = ltb→lt 0 s.conn_permits free in
        let (p, a, i) = served-chain-Released evs (record n { server = s2 }) nonce w safe in
        rw (free, handle_tunnel) (p ∙ omega arith, a ∙ omega arith, i)
  ]

  -- What a peer is told of its stream: that it is open, or why it is not.
  abbrev pub ack_of : ℕ → Result Stream → Cmd
  ack_of id (ok peer) = reply_open_cmd id status_ok 0 []
  ack_of id (err e) = reply_open_cmd id status_err err_connect_failed (to_string e)
  ack_of id panic = close_cmd

  abbrev pub peer_in : Result Stream → Option Stream
  peer_in (ok peer) = some peer
  peer_in (err e) = none
  peer_in panic = none

  module _ (q : Quinn) where
    answered-once :
        (acc : AcceptedStream q) (id : ℕ) (cmds : List Cmd) (r : Result Stream)
        → acc.inner ≡ ws_inner id true true cmds
        → r ≢ panic
        → ((answered b3 T q acc r).0 ≡ peer_in r)
          × ((answered b3 T q acc r).1.inner ≡ ws_inner id false true (cmds ++ (ack_of id r ∷ [])))
    unfolding answered told reply reply_with_code reply_open
    answered-once acc id cmds (ok peer) e h = rw e (refl, refl)
    answered-once acc id cmds (err e') e h = rw e (refl, refl)
    answered-once acc id cmds panic e h = absurd (h refl)

    -- A stream that a peer opens over a WebSocket tunnel which takes commands is answered with exactly one command:
    -- that it is open, with the relay going on, if the target was reached, and with the reason otherwise. A second
    -- answer fails and sends nothing. Connecting does not panic.
    pub handle_stream-answer :
        (resolve : World → Address → Dialled b3 T × World) (n : Node b3 T) (acc : AcceptedStream q)
        (w : World) (id : ℕ) (cmds : List Cmd) (status : ℕ) (more : List ℕ)
        → acc.inner ≡ ws_inner id true true cmds
        → (connect_peer b3 T resolve n acc.address w).0 ≢ panic
        → ((handle_stream b3 T q resolve n acc w).0.0
            ≡ peer_in (connect_peer b3 T resolve n acc.address w).0)
          × ((handle_stream b3 T q resolve n acc w).0.1.inner
              ≡ ws_inner id false true
                  (cmds ++ (ack_of id (connect_peer b3 T resolve n acc.address w).0 ∷ [])))
          × (reply q (handle_stream b3 T q resolve n acc w).0.1 status more
              ≡ (err stream_closed, (handle_stream b3 T q resolve n acc w).0.1))
    unfolding handle_stream
    handle_stream-answer resolve n acc w id cmds status more e h =
        let r = (connect_peer b3 T resolve n acc.address w).0 in
        let (relay, sent) = answered-once acc id cmds r e h in
        (
          relay,
          sent,
          reply_again q (answered b3 T q acc r).1 id (cmds ++ (ack_of id r ∷ [])) status more sent,
        )
