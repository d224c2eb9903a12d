-- ===== src/Frame.antt =====
-- crates/hydr-core/src/frame.rs: the frames of the WebSocket transport.
pub mod RoundTrip
pub mod Safety
use hydr.Base.{ℕ, ◌+◌, ◌*◌, ◌<◌, ◌^◌, ◌≤◌, List, [], length, get_elem?, All, Option, some, none}
use hydr.Base.{ltb, if◌then◌else◌}
use hydr.Base.Results.{text, Result, ok, err, unexpected_eof, invalid_data, ◌>>=◌, ok_or, slice}
use hydr.Base.Results.{slice_from}
use hydr.Varint.{encode_varint, decode_varint, max_varint}
use hydr.Varint.Bytes.{IsByte, push, extend}

abbrev pub frame_open_stream : ℕ
frame_open_stream = 0x01

abbrev pub frame_open_stream_ack : ℕ
frame_open_stream_ack = 0x02

abbrev pub frame_stream_data : ℕ
frame_stream_data = 0x03

abbrev pub frame_stream_close : ℕ
frame_stream_close = 0x04

abbrev pub frame_datagram : ℕ
frame_datagram = 0x05

abbrev pub frame_ping : ℕ
frame_ping = 0x06

abbrev pub frame_pong : ℕ
frame_pong = 0x07

abbrev pub frame_auth_request : ℕ
frame_auth_request = 0x08

abbrev pub frame_auth_response : ℕ
frame_auth_response = 0x09

abbrev pub frame_session_close : ℕ
frame_session_close = 0x0a

abbrev pub frame_stream_credit : ℕ
frame_stream_credit = 0x0b

abbrev pub control_stream : ℕ
control_stream = 0

abbrev pub max_body_len : ℕ
max_body_len = 64 * 1024

pub record Frame : Type 0 where
  pub stream_id : ℕ
  pub frame_type : ℕ
  pub body : List ℕ

abbrev pub new : ℕ → ℕ → List ℕ → Frame
new id kind body = record { stream_id = id; frame_type = kind; body = body }

-- `Frame::data`; `data` is a reserved word.
abbrev pub data_frame : ℕ → List ℕ → Frame
data_frame id body = new id frame_stream_data body

abbrev pub ping : Frame
ping = new control_stream frame_ping []

unfoldable pub encode : List ℕ → Frame → List ℕ
encode buf f =
    extend (encode_varint (push (encode_varint buf f.stream_id) f.frame_type) (length f.body))
      f.body

-- `usize::checked_add`
abbrev pub checked_add : ℕ → ℕ → Option ℕ
checked_add a b = if ltb (a + b) (2 ^ 64) then some (a + b) else none

unfoldable pub decode_body : List ℕ → ℕ → ℕ → ℕ → ℕ → Result (Frame × ℕ)
decode_body buf id kind pos body_len =
    if ltb max_body_len body_len then err (invalid_data (text "frame body too large")) else do
      end ← ok_or (checked_add pos body_len) (invalid_data (text "frame length overflow"))
      if ltb (length buf) end
          then err unexpected_eof
          else do body ← slice buf pos end; ok (new id kind body, end)

unfoldable pub decode : List ℕ → Result (Frame × ℕ)
decode buf = do
  (id, used) ← decode_varint buf
  kind ← ok_or (get_elem? buf used) unexpected_eof
  rest ← slice_from buf (used + 1)
  (body_len, used2) ← decode_varint rest
  decode_body buf id kind (used + 1 + used2) body_len

unfoldable pub max_frame_len : ℕ
unfolding max_varint
max_frame_len = max_varint + 1 + max_varint + max_body_len

-- What every decoded frame satisfies.
pub record IsFrame (f : Frame) : Type 0 where
  pub id : f.stream_id < 2 ^ 62
  pub kind : IsByte f.frame_type
  pub size : length f.body ≤ max_body_len
  pub bytes : All IsByte f.body
