-- ===== src/Tests/Clients.antt =====
-- The theorems about the client, and about the server's tunnels, at concrete inputs.
use hydr.Base.{
  ℕ, suc, ◌≡◌, ◌↔◌, refl, arith, List, [], ◌∷◌, ◌++◌, true, false, none, some, All, zero,
}
use hydr.Base.Blake3.{toy, repeat}
use hydr.Base.Maps.{get}
use hydr.Base.Results.{Result, ok, err, text, stream_closed, index}
use hydr.Base.Utf8.{ascii}
use hydr.Address.{Address, domain, IpAddr, v4}
use hydr.Address
use hydr.Client.{State, ClientConfig, ws_transport, connect_tunnel, dial, ws_tunnel, Serving}
use hydr.Client.Handles.{IsConsistent, IsWritten, run-IsConsistent}
use hydr.Client.Turns.{Turn, opens, enters, receives, advances, opener, server, started, run}
use hydr.Client.Conn.{login, check_method, or_default}
use hydr.Client.Gate.{login-verify_userpass}
use hydr.Client.Relay.{
  SocketAddr, RelaySession, UdpRelay, owner, on_packet, reply_packet, route_reply,
}
use hydr.Client.Retry.{reconnect_all, until_connected, reconnect_all-until}
use hydr.Client.Routes.{parse_udp_packet-reply_packet, route_reply-on_packet}
use hydr.Fingerprint.{require_fingerprint}
use hydr.Fingerprint.Verify.{
  cert_fingerprint_hex, make_client_config_with_pin, accepts, accepts-cert_fingerprint_hex,
}
use hydr.Message.{Datagram, new_datagram}
use hydr.Message.Proof.{ct_eq, difference}
use hydr.Metrics
use hydr.Quic.Streams.{lists}
use hydr.Server
use hydr.Server.{Server, Config}
use hydr.Server.Serve.{
  ServerEvent, Node, peer_of, handle_tunnel, Dialled, connect_peer, handle_stream,
}
use hydr.Server.Serve as Serve
use hydr.Server.Served.{NoPanic, handle_stream-answer, ack_of, peer_in}
use hydr.Socks.{negotiate_method, parse_udp_packet, verify_userpass}
use hydr.Tunnel.{Transports}
use hydr.Tunnel
use hydr.Tunnel.Accepted.{AcceptedStream, ws_inner, reply}
use hydr.Varint.Bytes.{IsByte}

-- Transports that count: every connection works, and a stream opens from the third attempt on.
abbrev pub Count : Type 0
Count = ℕ × ℕ

abbrev pub opened : Count → Result ℕ × Count
opened (zero, m) = (err stream_closed, (1, m))
opened (suc n, m) = (ok 5, (suc (suc n), m))

abbrev pub net : Transports
net = record {
  World = Count;
  QuicTunnel = ℕ;
  Connection = ℕ;
  WsTunnel = ℕ;
  WsHandle = ℕ;
  Stream = ℕ;
  connection = λ t. t;
  handle = λ t. t;
  quic_connect = λ w addr name insecure pin cc_rx auth. (ok (suc w.1), (w.0, suc w.1));
  ws_connect = λ w url insecure pin auth ob. (ok (suc w.1), (w.0, suc w.1));
  quic_open = λ w h addr. opened w;
  ws_open = λ w h addr. opened w;
  quic_send = λ w h dg. (ok tt, w);
  ws_send = λ w h dg. (ok tt, w);
  quic_recv = λ w t. (err stream_closed, w);
  ws_recv = λ w t. (err stream_closed, w);
  quic_close = λ w h. w;
  ws_close = λ w h. w;
  quic_shut = λ w t. w;
  ws_shut = λ w t. w;
}

abbrev config : ClientConfig
config = record {
  transport = ws_transport (text "ws://a.b") false none none;
  password = text "secret";
  cc_rx = 0;
  socks5_username = some (text "u");
  socks5_password = some (text "q");
}

abbrev client : State toy net
client = (
  record { config = config; tunnel = Tunnel.ws 1; handle = Tunnel.ws_handle 1; tunnel_gen = 0 },
  (0, 1),
)

abbrev host : Address
host = domain (text "a.b") 443

host-IsAddress : Address.IsAddress ascii host
host-IsAddress = ((omega arith, (omega arith, (omega arith, tt))), omega arith)

reconnect_all-until_example :
    reconnect_all toy net client.0.tunnel_gen ([] ∷ ([] ∷ [])) client
    ≡ until_connected toy net ([] ∷ ([] ∷ [])) client
reconnect_all-until_example = reconnect_all-until toy net ([] ∷ ([] ∷ [])) client (omega arith)

abbrev serving : Serving toy net
serving = record { backoff = 500; state = client; routed = [] }

-- The tunnel is closed and both tasks connect; the writes of one then follow those of the other.
abbrev both_connect : List (Turn toy net)
both_connect =
    receives
    ∷ (enters 0
        ∷ (advances server []
            ∷ (advances opener [] ∷ (advances server [] ∷ (opens (Tunnel.ws_handle 1) host ∷ [])))))

abbrev in_turn : List (Turn toy net)
in_turn =
    both_connect
    ++ (advances server []
        ∷ (advances opener [] ∷ (advances opener [] ∷ (advances server [] ∷ []))))

in_turn-IsWritten : IsWritten toy net (run toy net (started toy net client) in_turn)
unfolding run connect_tunnel dial ws_tunnel require_fingerprint Tunnel.from_tunnel
    Tunnel.recv_datagram
in_turn-IsWritten = (refl, refl)

run-IsConsistent_example : IsConsistent toy net (run toy net (started toy net client) in_turn).state
unfolding Tunnel.from_tunnel
run-IsConsistent_example = run-IsConsistent toy net in_turn client refl in_turn-IsWritten

-- Both writes of one task fall between those of the other.
abbrev between : List (Turn toy net)
between =
    both_connect
    ++ (advances opener []
        ∷ (advances opener [] ∷ (advances server [] ∷ (advances server [] ∷ []))))

-- The client then sends through one tunnel and receives from another.
between_lem :
    ((run toy net (started toy net client) between).state.0.tunnel ≡ Tunnel.ws 3)
    × ((run toy net (started toy net client) between).state.0.handle ≡ Tunnel.ws_handle 2)
unfolding run connect_tunnel dial ws_tunnel require_fingerprint Tunnel.from_tunnel
    Tunnel.recv_datagram
between_lem = (refl, refl)

-- A packet for `host` from a program on the loopback.
abbrev program : SocketAddr
program = (v4 (127 ∷ (0 ∷ (0 ∷ (1 ∷ [])))), 4000)

abbrev session : RelaySession
session = record { client_addr = none }

abbrev relay : UdpRelay
relay = record { sessions = (1, session) ∷ []; next_session = 2 }

abbrev packet : Datagram
packet = new_datagram 1 host (9 ∷ (8 ∷ []))

packet_read : parse_udp_packet ascii (reply_packet packet) ≡ ok (host, 9 ∷ (8 ∷ []))
unfolding new_datagram
packet_read = parse_udp_packet-reply_packet ascii packet host-IsAddress (omega arith)

route_reply-on_packet_example :
    (r : UdpRelay) × (on_packet ascii relay 1 program (reply_packet packet) true
      ≡ ok (r, some (new_datagram 1 host (9 ∷ (8 ∷ [])))))
    × (route_reply r packet ≡ some (owner session.client_addr program, reply_packet packet))
    × (parse_udp_packet ascii (reply_packet packet) ≡ ok (packet.address, packet.payload))
unfolding get new_datagram
route_reply-on_packet_example =
    route_reply-on_packet ascii relay 1 session program (reply_packet packet) host (9 ∷ (8 ∷ []))
      packet refl packet_read refl host-IsAddress (omega arith)

-- A greeting with one method, and the right name and password.
abbrev greeting : List ℕ
greeting = 5 ∷ (1 ∷ (2 ∷ (1 ∷ (1 ∷ (117 ∷ (1 ∷ (113 ∷ [])))))))

login-verify_userpass_example :
    (s1 : List ℕ) × (r1 : List ℕ) × (verify_userpass lists s1 r1
        (text "u")
        (or_default config.socks5_password)
      ≡ ok (true, (5 ∷ (2 ∷ (1 ∷ (0 ∷ []))), [])))
unfolding login check_method negotiate_method verify_userpass index ct_eq difference
login-verify_userpass_example =
    login-verify_userpass lists config (text "u") [] greeting (5 ∷ (2 ∷ (1 ∷ (0 ∷ []))), []) refl
      refl

abbrev toy_hash : List ℕ → List ℕ
toy_hash cert = repeat 32 0xab

toy_hash-IsByte : (n : ℕ) → All IsByte (repeat n 0xab)
toy_hash-IsByte zero = tt
toy_hash-IsByte (suc n) = (omega arith, toy_hash-IsByte n)

accepts-cert_fingerprint_hex_example :
    (require_fingerprint (some (cert_fingerprint_hex toy_hash [])) ≡ ok (some (toy_hash [])))
    × ((accepts toy_hash
            (λ c. false)
            (make_client_config_with_pin true (some (toy_hash [])))
            (1 ∷ [])
          ≡ true)
        ↔ (toy_hash (1 ∷ []) ≡ toy_hash []))
accepts-cert_fingerprint_hex_example =
    accepts-cert_fingerprint_hex toy_hash (λ c. false) true [] (1 ∷ []) refl (toy_hash-IsByte 32)

abbrev pub node : Node toy net
node = record {
  server = Server.new (record { password = text "secret"; cc_rx = 0; max_conns = 1 }) Metrics.new;
  next_hop = none;
  downstream = none;
}

pub net-NoPanic : NoPanic toy net node [] (0, 0)
net-NoPanic hop e = absurd (cc)

abbrev asked : AcceptedStream lists
asked = record { address = host; inner = ws_inner 3 true true [] }

abbrev unreachable : Count → Address → Dialled toy net × Count
unreachable w addr = (Serve.refused (text "no route"), w)

handle_stream-answer_example :
    ((handle_stream toy net lists unreachable node asked (0, 0)).0.0
      ≡ peer_in toy net (connect_peer toy net unreachable node host (0, 0)).0)
    × ((handle_stream toy net lists unreachable node asked (0, 0)).0.1.inner
        ≡ ws_inner 3 false true
            ([] ++ (ack_of toy net 3 (connect_peer toy net unreachable node host (0, 0)).0 ∷ [])))
    × (reply lists (handle_stream toy net lists unreachable node asked (0, 0)).0.1 0 []
        ≡ (err stream_closed, (handle_stream toy net lists unreachable node asked (0, 0)).0.1))
unfolding connect_peer peer_of
handle_stream-answer_example =
    handle_stream-answer toy net lists unreachable node asked (0, 0) 3 [] 0 [] refl (λ p. cc)
