-- ===== src/Message/RoundTrip.antt =====
-- Reading back encoded messages.
use hydr.Base.{ℕ, ◌+◌, ◌<◌, ◌^◌, ◌≡◌, ◌∙◌, arith, List, [], ◌∷◌, ◌++◌}
use hydr.Base.{length, length-append, append_assoc, le→ltb}
use hydr.Base.Results.{
  ok, index, slice_from, slice_in_range, slice_from_in_range, slice_from_append, ◌>>=◌,
}
use hydr.Base.Utf8.{Utf8}
use hydr.Varint.Bytes.{be_bytes, from_be_bytes, from_be-be_bytes_four, from_be-be_bytes_two}
use hydr.Address.{Address, IsAddress, name_length}
use hydr.Address
use hydr.Message.{
  AuthRequest, encode_auth_request, decode_auth_request, AuthResponse, encode_auth_response,
  decode_auth_response, OpenStreamAck, encode_open_stream_ack, decode_open_stream_ack, OpenStream,
  encode_open_stream, decode_open_stream, Datagram, encode_datagram, decode_datagram,
}
use hydr.Message.Reader.{
  wire, encode_varint-wire, new-between, pos-between, u8-between, varint-between, bytes-between,
}

-- What a field of bytes looks like on the wire, in front of `rest`.
abbrev field : List ℕ → List ℕ → List ℕ
field bs rest = wire (length bs) ++ (bs ++ rest)

-- The numbers of a request fit a varint. (Rust bounds the lengths by 2 ^ 63.)
pub record Fits (m : AuthRequest) : Type 0 where
  pub version : m.version < 2 ^ 62
  pub nonce : length m.client_nonce < 2 ^ 62
  pub proof : length m.auth_proof < 2 ^ 62
  pub rate : m.cc_rx < 2 ^ 62
  pub padding : length m.padding < 2 ^ 62

module _ (m : AuthRequest) (h : Fits m) where
  request_wire :
      (buf rest : List ℕ)
      → encode_auth_request buf m ++ rest
        ≡ buf
          ++ (wire m.version
              ++ (m.auth_method
                  ∷ field m.client_nonce
                      (field m.auth_proof (wire m.cc_rx ++ (m.features ∷ field m.padding rest)))))
  unfolding encode_auth_request
  request_wire buf rest =
      simp (encode_varint-wire, h.version, h.nonce, h.proof, h.rate, h.padding, append_assoc)

  -- The server reads the request that the client wrote, and counts its bytes exactly.
  pub auth_request-decode-encode :
      (rest : List ℕ)
      → decode_auth_request (encode_auth_request [] m ++ rest)
        ≡ ok (m, length (encode_auth_request [] m))
  unfolding decode_auth_request
  auth_request-decode-encode rest =
      rw (new-between, request_wire [] rest)
        (simp
          (
            varint-between, u8-between, bytes-between, h.version, h.nonce, h.proof, h.rate,
            h.padding, pos-between,
          )
          (unfold encode_auth_request in
            simp (encode_varint-wire, h.version, h.nonce, h.proof, h.rate, h.padding)))

-- The numbers of a response fit a varint.
pub record FitsResponse (m : AuthResponse) : Type 0 where
  pub message : length m.message < 2 ^ 62
  pub rate : m.server_cc_rx < 2 ^ 62
  pub padding : length m.padding < 2 ^ 62

module _ (m : AuthResponse) (h : FitsResponse m) where
  response_wire :
      (buf rest : List ℕ)
      → encode_auth_response buf m ++ rest
        ≡ buf
          ++ (m.status
              ∷ (m.error_code
                  ∷ field m.message
                      (wire m.server_cc_rx ++ (m.server_features ∷ field m.padding rest))))
  unfolding encode_auth_response
  response_wire buf rest = simp (encode_varint-wire, h.message, h.rate, h.padding, append_assoc)

  -- The client reads the response that the server wrote, and counts its bytes exactly.
  pub auth_response-decode-encode :
      (rest : List ℕ)
      → decode_auth_response (encode_auth_response [] m ++ rest)
        ≡ ok (m, length (encode_auth_response [] m))
  unfolding decode_auth_response
  auth_response-decode-encode rest =
      rw (new-between, response_wire [] rest)
        (simp (varint-between, u8-between, bytes-between, h.message, h.rate, h.padding, pos-between)
          (unfold encode_auth_response in simp (encode_varint-wire, h.message, h.rate, h.padding)))

module _ (m : OpenStreamAck) (h : length m.message < 2 ^ 62) where
  ack_wire :
      (buf rest : List ℕ)
      → encode_open_stream_ack buf m ++ rest
        ≡ buf ++ (m.status ∷ (m.error_code ∷ field m.message rest))
  unfolding encode_open_stream_ack
  ack_wire buf rest = simp (encode_varint-wire, h, append_assoc)

  -- An acknowledgement is read back whole, and its bytes are counted exactly.
  pub open_stream_ack-decode-encode :
      (rest : List ℕ)
      → decode_open_stream_ack (encode_open_stream_ack [] m ++ rest)
        ≡ ok (m, length (encode_open_stream_ack [] m))
  unfolding decode_open_stream_ack
  open_stream_ack-decode-encode rest =
      rw (new-between, ack_wire [] rest)
        (simp (u8-between, bytes-between, h, pos-between)
          (unfold encode_open_stream_ack in simp (encode_varint-wire, h)))

-- The values of the Rust type, with a name that fits the wire form.
pub record IsDatagram (u : Utf8) (m : Datagram) : Type 0 where
  pub session : m.session_id < 2 ^ 32
  pub packet : m.packet_id < 2 ^ 16
  pub address : IsAddress u m.address
  pub name : name_length m.address < 2 ^ 62

module _ (u : Utf8) where
  -- The address of a stream is read back, whatever follows it.
  pub open_stream-decode-encode :
      (m : OpenStream) (rest : List ℕ)
      → IsAddress u m.address
      → name_length m.address < 2 ^ 62
      → decode_open_stream u (encode_open_stream [] m ++ rest)
        ≡ ok (m, length (encode_open_stream [] m))
  unfolding decode_open_stream encode_open_stream
  open_stream-decode-encode m rest h k =
      rw (Address.RoundTrip.decode-encode_address u m.address rest h k)

  -- Eight bytes stand before the address.
  datagram_header :
      (a b c d e f g k : ℕ) (tail : List ℕ)
      → let buf = a ∷ b ∷ c ∷ d ∷ e ∷ f ∷ g ∷ k ∷ tail in
        decode_datagram u buf ≡ (
          Address.decode u tail >>= λ p. slice_from buf (8 + p.1) >>= λ payload. ok (
            record {
              session_id = from_be_bytes (a ∷ b ∷ c ∷ d ∷ []);
              packet_id = from_be_bytes (e ∷ f ∷ []);
              frag_id = g;
              frag_count = k;
              address = p.0;
              payload = payload;
            },
            length buf,
          ))
  unfolding decode_datagram index
  datagram_header a b c d e f g k tail =
      let buf = a ∷ b ∷ c ∷ d ∷ e ∷ f ∷ g ∷ k ∷ tail in
      rw (
        le→ltb (length buf) 8 (omega arith),
        slice_in_range buf 0 4 (omega arith) (omega arith),
        slice_in_range buf 4 6 (omega arith) (omega arith),
        slice_from_in_range buf 8 (omega arith),
      )

  -- A datagram is read back whole: its payload is all that follows the address.
  pub datagram-decode-encode :
      (m : Datagram)
      → IsDatagram u m
      → decode_datagram u (encode_datagram [] m) ≡ ok (m, length (encode_datagram [] m))
  unfolding encode_datagram be_bytes
  datagram-decode-encode m h =
      let session = be_bytes 4 m.session_id in
      let packet = be_bytes 2 m.packet_id in
      let front = ((session ++ packet) ++ (m.frag_id ∷ [])) ++ (m.frag_count ∷ []) in
      let target = Address.encode [] m.address in
      let after : slice_from (front ++ (target ++ m.payload)) (8 + length target) ≡ ok m.payload =
        let width : length (front ++ target) ≡ 8 + length target =
          omega (arith, length-append front target) in
        rw (width, append_assoc front target m.payload) at
          (slice_from_append (front ++ target) m.payload) in
      rw
        (
          Address.RoundTrip.encode-append front m.address (omega (arith, h.name)),
          append_assoc front target m.payload,
        )
        (datagram_header _ _ _ _ _ _ _ _ (target ++ m.payload)
          ∙ rw (
            Address.RoundTrip.decode-encode_address u m.address m.payload h.address h.name,
            after,
            from_be-be_bytes_four m.session_id h.session,
            from_be-be_bytes_two m.packet_id h.packet,
          ))
