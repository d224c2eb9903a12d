-- ===== src/Tests/Listener.antt =====
-- The theorems about the QUIC listener of the server at concrete inputs.
use hydr.Base.{ℕ, ◌≡◌, refl, ap, arith, List, [], ◌∷◌, ◌++◌, length, All, true, false, some, none}
use hydr.Base.Blake3.{toy}
use hydr.Base.Results.{text}
use hydr.Base.Sets.{bytes_eq}
use hydr.Message.{
  AuthRequest, status_err, encode_auth_request, encode_auth_response, protocol_version,
  auth_password,
}
use hydr.Varint.{encode_varint}
use hydr.Message.RoundTrip.{Fits}
use hydr.Quic.{write_len_prefixed, write_varint}
use hydr.Message.Proof.{compute_auth_proof}
use hydr.Metrics
use hydr.Address
use hydr.Base.Maps.{get}
use hydr.Message.{Datagram, new_datagram}
use hydr.Quic.Events.{
  Connection, Happening, opened, requested, polled, ServerEvent, datagram, next_events,
}
use hydr.Quic.Lost.{Other, next_events-lost}
use hydr.Quic.Streams.{lists}
use hydr.Quic.Wire.{prefixed}
use hydr.Server.{Server, validate}
use hydr.Server
use hydr.Server.Auth.{Knows}
use hydr.Server.Listen.{Incoming, on_incoming}
use hydr.Server.Listened.{on_incoming-balanced, on_incoming-unknown}
use hydr.Server.Serve.{admission, handle_tunnel}
use hydr.Tests.Clients.{net, node, net-NoPanic}
use hydr.Tunnel

-- A request with no proof.
abbrev stranger : AuthRequest
stranger = record {
  version = protocol_version;
  auth_method = auth_password;
  client_nonce = 1 ∷ 2 ∷ 3 ∷ 4 ∷ 5 ∷ 6 ∷ 7 ∷ 8 ∷ [];
  auth_proof = [];
  cc_rx = 0;
  features = 0;
  padding = [];
}

abbrev sent : List ℕ
sent = prefixed (encode_auth_request [] stranger) ++ (5 ∷ [])

abbrev incoming : Incoming toy net lists
incoming = record {
  ip = 10 ∷ (0 ∷ []);
  now = 0;
  auth_now = 1;
  stream = some ([], sent);
  tunnel = 0;
}

on_incoming-balanced_example :
    ((on_incoming toy net lists [] [] incoming (node, (0, 0))).0.server.conn_permits
      ≡ node.server.conn_permits)
    × ((on_incoming toy net lists [] [] incoming (node, (0, 0))).0.server.conns_active
        ≡ node.server.conns_active)
unfolding Server.new
on_incoming-balanced_example =
    on_incoming-balanced toy net lists [] [] incoming node (0, 0) (omega arith) net-NoPanic

let_in : (admission node.server 0 (10 ∷ (0 ∷ []))).1 ≡ true
unfolding Server.new admission Server.attempt_at Server.attempt Server.recent
let_in = refl

unknown : ¬ Knows toy (admission node.server 0 (10 ∷ (0 ∷ []))).0 stranger
unfolding compute_auth_proof
unknown (version, long, proof) = let widths = ap length proof in omega (arith, widths)

stranger-Fits : Fits stranger
stranger-Fits = record {
  version = omega arith;
  nonce = omega arith;
  proof = omega arith;
  rate = omega arith;
  padding = omega arith;
}

abbrev after : Server
after = (validate toy (admission node.server 0 (10 ∷ (0 ∷ []))).0 1 stranger).1

on_incoming-unknown_example :
    ((validate toy (admission node.server 0 (10 ∷ (0 ∷ []))).0 1 stranger).0.status ≡ status_err)
    × (on_incoming toy net lists [] [] incoming (node, (0, 0))
        ≡ handle_tunnel toy net [] [] (Tunnel.quic 0) (record node { server = after }, (0, 0)))
unfolding write_len_prefixed write_varint
on_incoming-unknown_example =
    on_incoming-unknown toy net lists [] [] incoming node (0, 0) []
      (prefixed (
        encode_auth_response []
          (validate toy (admission node.server 0 (10 ∷ (0 ∷ []))).0 1 stranger).0))
      sent stranger (5 ∷ []) let_in refl stranger-Fits
      (unfold encode_auth_request encode_varint in omega arith) refl unknown refl

abbrev dg : Datagram
dg = new_datagram 1 (Address.domain (text "a.b") 53) (7 ∷ [])

-- A stream whose request has not come, and a datagram.
abbrev busy : Connection
busy = record { streams = 4 ∷ []; requests = []; datagrams = dg ∷ []; accepting = none }

abbrev later : List Happening
later =
    requested 4 (Address.domain (text "a.b") 80) ∷ (polled true ∷ (opened 8 ∷ (polled false ∷ [])))

next_events-lost_example :
    (evs : List ServerEvent) × (next_events busy (polled true ∷ later) ≡ datagram dg ∷ evs)
    × All (Other 4) evs
unfolding get
next_events-lost_example =
    next_events-lost 4 busy [] dg [] later refl refl tt refl refl
      (tt, (tt, (omega arith, (tt, tt))))
