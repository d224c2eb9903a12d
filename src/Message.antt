-- ===== src/Message.antt =====
-- crates/hydr-core/src/message.rs: the messages of the control protocol, their wire forms and the
-- cursor that reads them. `FrameQueue` is a type name that the code does not use.
pub mod Reader
pub mod RoundTrip
pub mod Safety
pub mod Proof
use hydr.Base.{ℕ, ◌+◌, ◌<◌, ◌^◌, List, [], ◌∷◌, length, All, take}
use hydr.Base.{ltb, if◌then◌else◌}
use hydr.Base.Results.{Text, Result, ok, err, unexpected_eof, ◌>>=◌, index, slice, slice_from}
use hydr.Base.Utf8.{Utf8}
use hydr.Varint.{encode_varint}
use hydr.Varint.Bytes.{IsByte, push, extend, be_bytes, from_be_bytes}
use hydr.Address.{Address}
use hydr.Address

abbrev pub protocol_version : ℕ
protocol_version = 0x01

abbrev pub status_ok : ℕ
status_ok = 0x00

abbrev pub status_err : ℕ
status_err = 0x01

abbrev pub feature_udp : ℕ
feature_udp = 0x01

abbrev pub err_none : ℕ
err_none = 0x00

abbrev pub err_bad_credentials : ℕ
err_bad_credentials = 0x01

abbrev pub err_rate_limited : ℕ
err_rate_limited = 0x02

abbrev pub err_connect_failed : ℕ
err_connect_failed = 0x03

abbrev pub err_unsupported : ℕ
err_unsupported = 0x04

abbrev pub err_protocol : ℕ
err_protocol = 0x05

abbrev pub err_internal : ℕ
err_internal = 0x06

abbrev pub nonce_len : ℕ
nonce_len = 16

abbrev pub tag_len : ℕ
tag_len = 16

-- `encode_varint(buf, bs.len()); buf.extend_from_slice(bs)`, which stands at every field of bytes.
abbrev pub write_bytes : List ℕ → List ℕ → List ℕ
write_bytes buf bs = extend (encode_varint buf (length bs)) bs

pub record AuthRequest : Type 0 where
  pub version : ℕ
  pub auth_method : ℕ
  pub client_nonce : List ℕ
  pub auth_proof : List ℕ
  pub cc_rx : ℕ
  pub features : ℕ
  pub padding : List ℕ

abbrev pub auth_password : ℕ
auth_password = 0x01

unfoldable pub encode_auth_request : List ℕ → AuthRequest → List ℕ
encode_auth_request buf m =
    let buf1 = push (encode_varint buf m.version) m.auth_method in
    let buf2 = write_bytes (write_bytes buf1 m.client_nonce) m.auth_proof in
    let buf3 = push (encode_varint buf2 m.cc_rx) m.features in write_bytes buf3 m.padding

unfoldable pub decode_auth_request : List ℕ → Result (AuthRequest × ℕ)
decode_auth_request buf = do
  (version, rd1) ← Reader.varint (Reader.new buf)
  (auth_method, rd2) ← Reader.u8 rd1
  (client_nonce, rd3) ← Reader.bytes rd2
  (auth_proof, rd4) ← Reader.bytes rd3
  (cc_rx, rd5) ← Reader.varint rd4
  (features, rd6) ← Reader.u8 rd5
  (padding, rd7) ← Reader.bytes rd6
  ok (
    record {
      version = version;
      auth_method = auth_method;
      client_nonce = client_nonce;
      auth_proof = auth_proof;
      cc_rx = cc_rx;
      features = features;
      padding = padding;
    },
    rd7.pos,
  )

pub record AuthResponse : Type 0 where
  pub status : ℕ
  pub error_code : ℕ
  pub message : List ℕ
  pub server_cc_rx : ℕ
  pub server_features : ℕ
  pub padding : List ℕ

-- `AuthResponse::ok`
unfoldable pub response_ok : ℕ → ℕ → AuthResponse
response_ok server_cc_rx server_features = record {
  status = status_ok;
  error_code = err_none;
  message = [];
  server_cc_rx = server_cc_rx;
  server_features = server_features;
  padding = [];
}

-- `AuthResponse::error_with_code`
unfoldable pub response_error_with_code : ℕ → Text → AuthResponse
response_error_with_code error_code msg = record {
  status = status_err;
  error_code = error_code;
  message = msg;
  server_cc_rx = 0;
  server_features = 0;
  padding = [];
}

-- `AuthResponse::error`
unfoldable pub response_error : Text → AuthResponse
unfolding response_error_with_code
response_error msg = response_error_with_code err_bad_credentials msg

unfoldable pub encode_auth_response : List ℕ → AuthResponse → List ℕ
encode_auth_response buf m =
    let buf1 = write_bytes (push (push buf m.status) m.error_code) m.message in
    let buf2 = push (encode_varint buf1 m.server_cc_rx) m.server_features in
    write_bytes buf2 m.padding

unfoldable pub decode_auth_response : List ℕ → Result (AuthResponse × ℕ)
decode_auth_response buf = do
  (status, rd1) ← Reader.u8 (Reader.new buf)
  (error_code, rd2) ← Reader.u8 rd1
  (message, rd3) ← Reader.bytes rd2
  (server_cc_rx, rd4) ← Reader.varint rd3
  (server_features, rd5) ← Reader.u8 rd4
  (padding, rd6) ← Reader.bytes rd5
  ok (
    record {
      status = status;
      error_code = error_code;
      message = message;
      server_cc_rx = server_cc_rx;
      server_features = server_features;
      padding = padding;
    },
    rd6.pos,
  )

pub record OpenStreamAck : Type 0 where
  pub status : ℕ
  pub error_code : ℕ
  pub message : List ℕ

-- `OpenStreamAck::ok` and `OpenStreamAck::error_with_code`
unfoldable pub ack_ok : OpenStreamAck
ack_ok = record { status = status_ok; error_code = err_none; message = [] }

unfoldable pub ack_error_with_code : ℕ → Text → OpenStreamAck
ack_error_with_code error_code msg = record {
  status = status_err;
  error_code = error_code;
  message = msg;
}

unfoldable pub encode_open_stream_ack : List ℕ → OpenStreamAck → List ℕ
encode_open_stream_ack buf m = write_bytes (push (push buf m.status) m.error_code) m.message

unfoldable pub decode_open_stream_ack : List ℕ → Result (OpenStreamAck × ℕ)
decode_open_stream_ack buf = do
  (status, rd1) ← Reader.u8 (Reader.new buf)
  (error_code, rd2) ← Reader.u8 rd1
  (message, rd3) ← Reader.bytes rd2
  ok (record { status = status; error_code = error_code; message = message }, rd3.pos)

pub record OpenStream : Type 0 where
  pub address : Address

unfoldable pub encode_open_stream : List ℕ → OpenStream → List ℕ
encode_open_stream buf m = Address.encode buf m.address

unfoldable pub decode_open_stream : Utf8 → List ℕ → Result (OpenStream × ℕ)
decode_open_stream u buf = do
  (address, used) ← Address.decode u buf
  ok (record { address = address }, used)

pub record Datagram : Type 0 where
  pub session_id : ℕ
  pub packet_id : ℕ
  pub frag_id : ℕ
  pub frag_count : ℕ
  pub address : Address
  pub payload : List ℕ

-- `Datagram::new`
unfoldable pub new_datagram : ℕ → Address → List ℕ → Datagram
new_datagram session_id address payload = record {
  session_id = session_id;
  packet_id = 0;
  frag_id = 0;
  frag_count = 1;
  address = address;
  payload = payload;
}

unfoldable pub encode_datagram : List ℕ → Datagram → List ℕ
encode_datagram buf m =
    let buf1 = extend (extend buf (be_bytes 4 m.session_id)) (be_bytes 2 m.packet_id) in
    let buf2 = push (push buf1 m.frag_id) m.frag_count in
    extend (Address.encode buf2 m.address) m.payload

unfoldable pub decode_datagram : Utf8 → List ℕ → Result (Datagram × ℕ)
decode_datagram u buf = if ltb (length buf) 8 then err unexpected_eof else do
  session ← slice buf 0 4
  packet ← slice buf 4 6
  frag_id ← index buf 6
  frag_count ← index buf 7
  rest ← slice_from buf 8
  (address, used) ← Address.decode u rest
  payload ← slice_from buf (8 + used)
  ok (
    record {
      session_id = from_be_bytes session;
      packet_id = from_be_bytes packet;
      frag_id = frag_id;
      frag_count = frag_count;
      address = address;
      payload = payload;
    },
    length buf,
  )
