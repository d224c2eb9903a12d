-- ===== src/Quic/Events.antt =====
-- `Tunnel::next_event` of crates/hydr-transport/src/lib.rs over QUIC: a `select!` of `QuicTunnel::accept_stream` and
-- `recv_datagram` of quic.rs. A stream is a number; its request is there once its whole message is. What a future
-- holds when the other branch is taken is dropped with it. Every datagram can be read, and the connection lasts. What `accept_bi` and `read_datagram` of
-- quinn are relied on for is written out as a queue each: they give what was opened or came in, each once and in order.
use hydr.Base.{ℕ, List, [], ◌∷◌, ◌++◌, Bool, true, false, Option, none, some}
use hydr.Base.Maps.{Map, get, put}
use hydr.Address.{Address}
use hydr.Message.{Datagram}

-- The connection, with the streams that were opened and not taken, and the stream that the running call of
-- `accept_stream` has taken, if it waits for its request.
pub record Connection : Type 0 where
  pub streams : List ℕ
  pub requests : Map Address
  pub datagrams : List Datagram
  pub accepting : Option ℕ

pub data ServerEvent : Type 0 where
  stream : ℕ → Address → ServerEvent
  datagram : Datagram → ServerEvent

-- A poll of the future of `accept_stream`: `accept_bi`, and then the reading of the request.
unfoldable pub take_stream : Connection → Connection
take_stream c = elim c.accepting [
  | some id ↦ c
  | none ↦ elim c.streams [ [] ↦ c | id ∷ ids ↦ record c { streams = ids; accepting = some id } ]
]

unfoldable pub read_open : Connection → Option (ℕ × Address)
unfolding get
read_open c = elim c.accepting [
  | none ↦ none
  | some id ↦ elim (get id c.requests) [ none ↦ none | some addr ↦ some (id, addr) ]
]

-- The branch of the datagrams, with the future of the other branch dropped.
unfoldable pub poll_datagram : Connection → Connection × Option ServerEvent
poll_datagram c = elim c.datagrams [
  | [] ↦ (c, none)
  | d ∷ ds ↦ (record c { datagrams = ds; accepting = none }, some (datagram d))
]

-- A poll of `next_event`, which starts with either branch; after an event the next call begins.
unfoldable pub poll : Bool → Connection → Connection × Option ServerEvent
unfolding take_stream read_open poll_datagram
poll true c =
    let c' = take_stream c in
    elim (read_open c') [
      | some (id, addr) ↦ (record c' { accepting = none }, some (stream id addr))
      | none ↦ poll_datagram c'
    ]
poll false c = elim c.datagrams [
  | d ∷ ds ↦ poll_datagram c
  | [] ↦
      let c' = take_stream c in
      elim (read_open c') [
        | some (id, addr) ↦ (record c' { accepting = none }, some (stream id addr))
        | none ↦ (c', none)
      ]
]

-- What happens to the connection.
pub data Happening : Type 0 where
  opened : ℕ → Happening
  requested : ℕ → Address → Happening
  sent : Datagram → Happening
  polled : (stream_first : Bool) → Happening

unfoldable pub happen : Connection → Happening → Connection × Option ServerEvent
unfolding poll put
happen c (opened id) = (record c { streams = c.streams ++ (id ∷ []) }, none)
happen c (requested id addr) = (record c { requests = put id addr c.requests }, none)
happen c (sent d) = (record c { datagrams = c.datagrams ++ (d ∷ []) }, none)
happen c (polled stream_first) = poll stream_first c

abbrev pub with_event : Option ServerEvent → List ServerEvent → List ServerEvent
with_event none evs = evs
with_event (some ev) evs = ev ∷ evs

-- The events that the calls give to the server.
unfoldable pub next_events : Connection → List Happening → List ServerEvent
unfolding happen
next_events c [] = []
next_events c (h ∷ hs) = let (c', ev) = happen c h in with_event ev (next_events c' hs)
