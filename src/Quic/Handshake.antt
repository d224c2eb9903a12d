-- ===== src/Quic/Handshake.antt =====
-- Both sides of the handshake and of opening a stream, over streams that deliver what was written.
use hydr.Base.{ℕ, ◌^◌, ◌<◌, ◌≡◌, refl, sym, ap, ◌∙◌, List, [], ◌++◌, append-nil, length}
use hydr.Base.{◌==◌, if◌then◌else◌}
use hydr.Base.Results.{Result, ok, err, message, ◌>>=◌}
use hydr.Base.Utf8.{Utf8}
use hydr.Address.{Address, IsAddress, name_length}
use hydr.Message.{
  AuthRequest, AuthResponse, OpenStream, OpenStreamAck, encode_auth_request, decode_auth_request,
  encode_auth_response, decode_auth_response, encode_open_stream, encode_open_stream_ack,
  decode_open_stream, decode_open_stream_ack, status_err,
}
use hydr.Message.RoundTrip.{
  Fits, FitsResponse, auth_request-decode-encode, auth_response-decode-encode,
  open_stream-decode-encode, open_stream_ack-decode-encode,
}
use hydr.Quic.{
  write_len_prefixed, client_handshake, server_handshake, open_stream, accept_stream, ack_error,
}
use hydr.Quic.Streams.{Quinn}
use hydr.Quic.Wire.{prefixed, read_message-prefixed}

module _ (q : Quinn) (u : Utf8) where
  open q use {Recv, Send, pending}

  -- The server hands the tunnel to its caller whatever the status of the response is: on a stream
  -- with the bytes of a client it validates the client's own request, and after writing the response
  -- it returns the request, for a refusal as for an acceptance.
  pub server_handshake-any_status :
      (validate : AuthRequest → Result AuthResponse) (send : Send) (recv : Recv) (req : AuthRequest)
      (resp : AuthResponse) (rest : List ℕ)
      → Fits req
      → length (encode_auth_request [] req) < 2 ^ 62
      → pending recv ≡ prefixed (encode_auth_request [] req) ++ rest
      → validate req ≡ ok resp
      → (recv' : Recv) × (server_handshake q validate send recv ≡ (
          write_len_prefixed q send (encode_auth_response [] resp) >>= λ s. ok (req, (s, recv'))))
        × (pending recv' ≡ rest)
  unfolding server_handshake
  server_handshake-any_status validate send recv req resp rest f short p answers =
      let bytes = encode_auth_request [] req in
      let reads =
        ap decode_auth_request (sym (append-nil bytes)) ∙ auth_request-decode-encode req f [] in
      let (recv', read, left) =
        read_message-prefixed q recv decode_auth_request bytes rest req _ short reads p in
      (recv', rw (read, answers) refl, left)

  -- A client whose request went out and who finds the server's response on its stream has a tunnel
  -- exactly if the status is not an error, and otherwise the error that carries the server's message.
  pub client_handshake-result :
      (send send' : Send) (recv : Recv) (req : AuthRequest) (resp : AuthResponse) (rest : List ℕ)
      → FitsResponse resp
      → length (encode_auth_response [] resp) < 2 ^ 62
      → write_len_prefixed q send (encode_auth_request [] req) ≡ ok send'
      → pending recv ≡ prefixed (encode_auth_response [] resp) ++ rest
      → (recv' : Recv) × (client_handshake q u send recv req ≡ (
          if resp.status == status_err
          then err (message (u.from_utf8_lossy resp.message))
          else ok (send', recv')))
        × (pending recv' ≡ rest)
  unfolding client_handshake
  client_handshake-result send send' recv req resp rest f short sent p =
      let bytes = encode_auth_response [] resp in
      let reads =
        ap decode_auth_response (sym (append-nil bytes)) ∙ auth_response-decode-encode resp f [] in
      let (recv', read, left) =
        read_message-prefixed q recv decode_auth_response bytes rest resp _ short reads p in
      (recv', rw (sent, read) refl, left)

  -- The server accepts a stream to the very address that the client asked for.
  pub accept_stream-address :
      (send : Send) (recv : Recv) (addr : Address) (rest : List ℕ)
      → IsAddress u addr
      → name_length addr < 2 ^ 62
      → length (encode_open_stream [] (record { address = addr })) < 2 ^ 62
      → pending recv ≡ prefixed (encode_open_stream [] (record { address = addr })) ++ rest
      → (recv' : Recv) × (accept_stream q u send recv ≡ ok (addr, (send, recv')))
        × (pending recv' ≡ rest)
  unfolding accept_stream
  accept_stream-address send recv addr rest good name short p =
      let m : OpenStream = record { address = addr } in
      let bytes = encode_open_stream [] m in
      let reads =
        ap (decode_open_stream u) (sym (append-nil bytes))
        ∙ open_stream-decode-encode u m [] good name in
      let (recv', read, left) =
        read_message-prefixed q recv (decode_open_stream u) bytes rest m _ short reads p in
      (recv', rw read refl, left)

  -- The client has a stream exactly if the server's acknowledgement is not an error, and otherwise the
  -- error with its code and message.
  pub open_stream-result :
      (send send' : Send) (recv : Recv) (addr : Address) (ack : OpenStreamAck) (rest : List ℕ)
      → length ack.message < 2 ^ 62
      → length (encode_open_stream_ack [] ack) < 2 ^ 62
      → write_len_prefixed q send (encode_open_stream [] (record { address = addr })) ≡ ok send'
      → pending recv ≡ prefixed (encode_open_stream_ack [] ack) ++ rest
      → (recv' : Recv) × (open_stream q u send recv addr ≡ (
          if ack.status == status_err then err (message (ack_error u ack)) else ok (send', recv')))
        × (pending recv' ≡ rest)
  unfolding open_stream
  open_stream-result send send' recv addr ack rest f short sent p =
      let bytes = encode_open_stream_ack [] ack in
      let reads =
        ap decode_open_stream_ack (sym (append-nil bytes))
        ∙ open_stream_ack-decode-encode ack f [] in
      let (recv', read, left) =
        read_message-prefixed q recv decode_open_stream_ack bytes rest ack _ short reads p in
      (recv', rw (sent, read) refl, left)
