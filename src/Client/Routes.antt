-- ===== src/Client/Routes.antt =====
-- crates/hydr-client/src/udp_relay.rs: a reply goes to the program that sent the first packet, in the format that
-- `parse_udp_packet` of crates/hydr-client/src/socks5.rs reads.
use hydr.Base.{
  ℕ, ◌+◌, ◌<◌, ◌≤◌, ◌^◌, ◌≡◌, refl, ap, ◌∙◌, arith, List, [], ◌∷◌, ◌++◌, true, false, some,
}
use hydr.Base.{length, length-append, ==_refl, ltb, le→ltb}
use hydr.Base.Maps.{get, put, get-put}
use hydr.Base.Results.{ok, slice_from, index, slice_from_append}
use hydr.Base.Utf8.{Utf8}
use hydr.Address.{Address, IsAddress, name_length}
use hydr.Address
use hydr.Address.RoundTrip.{decode-encode_address, encode-append}
use hydr.Message.{Datagram, new_datagram}
use hydr.Socks.{parse_udp_packet}
use hydr.Client.Relay.{
  SocketAddr, RelaySession, UdpRelay, owner, forward, parsed, on_packet, reply_packet, addressed,
  route_reply,
}

some_byte :
    (u : Utf8) (a : Address) (front : List ℕ)
    → ((rest : List ℕ) → Address.decode u (front ++ rest) ≡ ok (a, length front))
    → 1 ≤ length front
unfolding Address.decode
some_byte u a [] e = let no_way = e [] in absurd (cc)
some_byte u a (b ∷ front) e = omega arith

-- What `parse_udp_packet` computes on a packet whose address it can read.
parse_udp_packet-front :
    (u : Utf8) (a : Address) (front payload : List ℕ)
    → 1 ≤ length front
    → Address.decode u (front ++ payload) ≡ ok (a, length front)
    → parse_udp_packet u (0 ∷ (0 ∷ (0 ∷ (front ++ payload)))) ≡ ok (a, payload)
unfolding parse_udp_packet index
parse_udp_packet-front u a front payload h e =
    let zeros : List ℕ = 0 ∷ (0 ∷ (0 ∷ [])) in
    let long : ltb (length (0 ∷ (0 ∷ (0 ∷ (front ++ payload))))) 4 ≡ false =
      le→ltb _ _ (omega (arith, h, length-append front payload)) in
    let tail : slice_from (0 ∷ (0 ∷ (0 ∷ (front ++ payload)))) 3 ≡ ok (front ++ payload) =
      slice_from_append zeros (front ++ payload) in
    let last : slice_from (0 ∷ (0 ∷ (0 ∷ (front ++ payload)))) (3 + length front) ≡ ok payload =
      ap (slice_from (0 ∷ (0 ∷ (0 ∷ (front ++ payload))))) (omega arith)
      ∙ slice_from_append (zeros ++ front) payload in
    rw (long, tail, e, last) refl

-- `parse_udp_packet` reads the packet of a datagram back as its address and its payload.
pub parse_udp_packet-reply_packet :
    (u : Utf8) (dg : Datagram)
    → IsAddress u dg.address
    → name_length dg.address < 2 ^ 62
    → parse_udp_packet u (reply_packet dg) ≡ ok (dg.address, dg.payload)
unfolding reply_packet
parse_udp_packet-reply_packet u dg h short =
    let bytes = Address.encode [] dg.address in
    let zeros : List ℕ = 0 ∷ (0 ∷ (0 ∷ [])) in
    let layout : Address.encode zeros dg.address ++ dg.payload
        ≡ 0 ∷ (0 ∷ (0 ∷ (bytes ++ dg.payload))) =
      ap (λ b. b ++ dg.payload) (encode-append zeros dg.address (omega (arith, short))) in
    ap (parse_udp_packet u) layout
    ∙ parse_udp_packet-front u dg.address bytes dg.payload
        (some_byte u dg.address bytes (λ rest. decode-encode_address u dg.address rest h short))
        (decode-encode_address u dg.address dg.payload h short)

-- A packet that can be read, of a session that is there, is handled without a panic. If the tunnel takes it, the
-- datagram that goes out has the number of the session and what the packet held, and a reply of that session, of a
-- valid address, goes to the session's first sender, in a packet that `parse_udp_packet` reads as its address and its
-- payload.
pub route_reply-on_packet :
    (u : Utf8) (r : UdpRelay) (sid : ℕ) (session : RelaySession) (from : SocketAddr) (buf : List ℕ)
    (target : Address) (payload : List ℕ) (dg : Datagram)
    → get sid r.sessions ≡ some session
    → parse_udp_packet u buf ≡ ok (target, payload)
    → dg.session_id ≡ sid
    → IsAddress u dg.address
    → name_length dg.address < 2 ^ 62
    → (r' : UdpRelay) × (on_packet u r sid from buf true
        ≡ ok (r', some (new_datagram sid target payload)))
      × (route_reply r' dg ≡ some (owner session.client_addr from, reply_packet dg))
      × (parse_udp_packet u (reply_packet dg) ≡ ok (dg.address, dg.payload))
unfolding on_packet parsed forward route_reply addressed
route_reply-on_packet u r sid session from buf target payload dg found read same h short =
    let first = owner session.client_addr from in
    let stored : get dg.session_id (put sid (record { client_addr = some first }) r.sessions)
        ≡ some (record { client_addr = some first }) =
      rw same (
        get-put sid sid (record { client_addr = some first }) r.sessions ∙ rw (==_refl sid) refl) in
    (
      (forward r sid session from (target, payload) true).0,
      rw (read, found, parsed) refl,
      rw (stored, route_reply) refl,
      parse_udp_packet-reply_packet u dg h short,
    )
