-- ===== src/Client/Relay.antt =====
-- crates/hydr-client/src/udp_relay.rs: the table of UDP associations of the client. The sockets are left
-- out: a packet that one of them receives is an event of its session, and so is its failure. The task of a
-- session alone removes it.
use hydr.Base.{ℕ, ◌+◌, ◌%◌, ◌^◌, List, [], ◌∷◌, ◌++◌, Bool, true, false, Option, none, some}
use hydr.Base.Maps.{Map, get, put, remove_entry}
use hydr.Base.Results.{Result, ok, err, panic}
use hydr.Base.Utf8.{Utf8}
use hydr.Address.{Address, IpAddr, ip}
use hydr.Address
use hydr.Message.{Datagram, new_datagram}
use hydr.Socks.{parse_udp_packet}

abbrev pub SocketAddr : Type 0
SocketAddr = IpAddr × ℕ

pub record RelaySession : Type 0 where
  pub client_addr : Option SocketAddr

pub record UdpRelay : Type 0 where
  pub sessions : Map RelaySession
  pub next_session : ℕ

unfoldable pub new : UdpRelay
new = record { sessions = []; next_session = 1 }

-- `associate`: the session, its number, and the answer on the control connection.
unfoldable pub associate : UdpRelay → SocketAddr → UdpRelay × (ℕ × List ℕ)
associate r (address, port) = (
  record {
    sessions = put r.next_session (record { client_addr = none }) r.sessions;
    next_session = (r.next_session + 1) % 2 ^ 32;
  },
  (r.next_session, Address.encode (5 ∷ (0 ∷ (0 ∷ []))) (ip address port)),
)

-- The first sender of a session is its client.
unfoldable pub owner : Option SocketAddr → SocketAddr → SocketAddr
owner none from = from
owner (some a) from = a

unfoldable pub close_session : UdpRelay → ℕ → UdpRelay
close_session r sid = record r { sessions = remove_entry sid r.sessions }

-- A packet that can be read, of a session that is there; `sent` tells whether the tunnel took it.
unfoldable pub forward :
    UdpRelay → ℕ → RelaySession → SocketAddr → Address × List ℕ → Bool → UdpRelay × Option Datagram
unfolding owner close_session new_datagram
forward r sid session from (target, payload) sent =
    let r' : UdpRelay = record r {
      sessions =
          put sid (record { client_addr = some (owner session.client_addr from) }) r.sessions;
    } in
    (elim sent [ true ↦ r' | false ↦ close_session r' sid ], some (new_datagram sid target payload))

-- Without its session, `guard[&sid]` panics.
unfoldable pub parsed :
    UdpRelay
    → ℕ
    → SocketAddr
    → Result (Address × List ℕ)
    → Bool
    → Result (UdpRelay × Option Datagram)
unfolding forward
parsed r sid from (ok packet) sent = elim (get sid r.sessions) [
  | none ↦ panic
  | some session ↦ ok (forward r sid session from packet sent)
]
parsed r sid from (err e) sent = ok (r, none)
parsed r sid from panic sent = panic

unfoldable pub on_packet :
    Utf8 → UdpRelay → ℕ → SocketAddr → List ℕ → Bool → Result (UdpRelay × Option Datagram)
unfolding parsed
on_packet u r sid from buf sent = parsed r sid from (parse_udp_packet u buf) sent

-- The packet for the local program.
unfoldable pub reply_packet : Datagram → List ℕ
reply_packet dg = Address.encode (0 ∷ (0 ∷ (0 ∷ []))) dg.address ++ dg.payload

unfoldable pub addressed : Datagram → Option SocketAddr → Option (SocketAddr × List ℕ)
unfolding reply_packet
addressed dg none = none
addressed dg (some a) = some (a, reply_packet dg)

-- `route_reply`: what is sent from the session's socket, if anything.
unfoldable pub route_reply : UdpRelay → Datagram → Option (SocketAddr × List ℕ)
unfolding addressed
route_reply r dg = elim (get dg.session_id r.sessions) [
  | none ↦ none
  | some session ↦ addressed dg session.client_addr
]
