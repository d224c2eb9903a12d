-- ===== src/Quic.antt =====
-- crates/hydr-transport/src/quic.rs: the messages on a QUIC stream, each behind its length, and the
-- two sides of the handshake and of opening a stream. The two ends of a stream are parameters, and
-- `open_bi` and `accept_bi` have already given them. Memory for a message of the announced length is
-- taken to be there.
pub mod Streams
pub mod Wire
pub mod Handshake
pub mod Events
pub mod Lost
use hydr.Base.{
  ℕ, suc, ◌+◌, ◌-◌, ◌/◌, ◌%◌, ◌^◌, List, [], ◌∷◌, ◌++◌, length, ltb, ◌==◌, if◌then◌else◌,
}
use hydr.Base.Results.{Text, text, Result, ok, err, message, ◌>>=◌, index}
use hydr.Base.Utf8.{Utf8}
use hydr.Address.{Address}
use hydr.Varint.{encode_varint, decode_varint}
use hydr.Message.{
  AuthRequest, AuthResponse, OpenStream, OpenStreamAck, Datagram, encode_auth_request,
  decode_auth_request, encode_auth_response, decode_auth_response, encode_open_stream,
  decode_open_stream, encode_open_stream_ack, decode_open_stream_ack, encode_datagram,
  decode_datagram, status_err,
}
use Streams.{Quinn}

-- `format!("[code {}] {}", …)` of a byte and a text.
unfoldable pub decimal : ℕ → Text
decimal n =
    if ltb n 10
    then (48 + n) ∷ []
    else if ltb n 100
    then (48 + n / 10) ∷ ((48 + n % 10) ∷ [])
    else (48 + n / 100) ∷ ((48 + n / 10 % 10) ∷ ((48 + n % 10) ∷ []))

unfoldable pub ack_error : Utf8 → OpenStreamAck → Text
unfolding decimal
ack_error u ack =
    text "[code " ++ (decimal ack.error_code ++ (text "] " ++ u.from_utf8_lossy ack.message))

module _ (q : Quinn) where
  open q use {Recv, Send, read_exact, write_all}

  unfoldable pub read_varint : Recv → Result (ℕ × Recv)
  read_varint recv = do
    (first, recv1) ← read_exact recv 1
    lead ← index first 0
    let tag = lead / 2 ^ 6
    let len = 2 ^ tag
    (tail, recv2) ← (if ltb 1 len then read_exact recv1 (len - 1) else ok ([], recv1))
    (v, used) ← decode_varint (lead ∷ tail)
    ok (v, recv2)

  unfoldable pub write_varint : Send → ℕ → Result Send
  write_varint send v = write_all send (encode_varint [] v)

  unfoldable pub read_message {ℓ} :
      {A : Type ℓ} → Recv → (List ℕ → Result (A × ℕ)) → Result (A × Recv)
  unfolding read_varint
  read_message recv decode = do
    (len, recv1) ← read_varint recv
    (buf, recv2) ← read_exact recv1 len
    (msg, used) ← decode buf
    ok (msg, recv2)

  unfoldable pub write_len_prefixed : Send → List ℕ → Result Send
  unfolding write_varint
  write_len_prefixed send buf = do send1 ← write_varint send (length buf); write_all send1 buf

  -- The stream is returned with the result where the code keeps it open.
  unfoldable pub client_handshake : Utf8 → Send → Recv → AuthRequest → Result (Send × Recv)
  unfolding read_message write_len_prefixed
  client_handshake u send recv auth = do
    send1 ← write_len_prefixed send (encode_auth_request [] auth)
    (resp, recv1) ← read_message recv decode_auth_response
    if resp.status == status_err
        then err (message (u.from_utf8_lossy resp.message))
        else ok (send1, recv1)

  -- `validate` is the caller's.
  unfoldable pub server_handshake :
      (AuthRequest → Result AuthResponse) → Send → Recv → Result (AuthRequest × (Send × Recv))
  unfolding read_message write_len_prefixed
  server_handshake validate send recv = do
    (req, recv1) ← read_message recv decode_auth_request
    resp ← validate req
    send1 ← write_len_prefixed send (encode_auth_response [] resp)
    ok (req, (send1, recv1))

  -- `QuicTunnel::open_stream`
  unfoldable pub open_stream : Utf8 → Send → Recv → Address → Result (Send × Recv)
  unfolding read_message write_len_prefixed ack_error
  open_stream u send recv addr = do
    send1 ← write_len_prefixed send (encode_open_stream [] (record { address = addr }))
    (ack, recv1) ← read_message recv decode_open_stream_ack
    if ack.status == status_err then err (message (ack_error u ack)) else ok (send1, recv1)

  -- `QuicTunnel::accept_stream`
  unfoldable pub accept_stream : Utf8 → Send → Recv → Result (Address × (Send × Recv))
  unfolding read_message
  accept_stream u send recv = do
    (req, recv1) ← read_message recv (decode_open_stream u)
    ok (req.address, (send, recv1))

  -- `QuicAccepted::ack`
  unfoldable pub ack : Send → ℕ → ℕ → List ℕ → Result Send
  unfolding write_len_prefixed
  ack send status error_code msg = write_len_prefixed send (
      encode_open_stream_ack []
        (record { status = status; error_code = error_code; message = msg }))

-- `send_datagram` and `recv_datagram` around the calls of quinn.
unfoldable pub datagram_out : Datagram → List ℕ
datagram_out dg = encode_datagram [] dg

unfoldable pub datagram_in : Utf8 → List ℕ → Result Datagram
datagram_in u data_bytes = do (d, used) ← decode_datagram u data_bytes; ok d
