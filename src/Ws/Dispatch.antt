-- ===== src/Ws/Dispatch.antt =====
-- `handle_frame` of crates/hydr-transport/src/ws.rs, one function for each kind of frame. The decoders
-- return an error where they fail; their third outcome, a panic, does not arise on bytes, and stands
-- beside the error here.
use hydr.Base.{
  ℕ, List, [], ◌∷◌, ◌++◌, Bool, false, Option, none, some, ◌==◌, ◌&&◌, not, if◌then◌else◌,
}
use hydr.Base.Maps.{Map, get, put, remove_entry}
use hydr.Base.Results.{text, Result, ok, err, panic, to_string, message}
use hydr.Base.Sets.{contains, nat_eq}
use hydr.Base.Utf8.{Utf8}
use hydr.Frame.{
  Frame, frame_open_stream, frame_open_stream_ack, frame_stream_data, frame_stream_close,
  frame_datagram, frame_ping, frame_pong, frame_auth_request, frame_auth_response,
  frame_stream_credit,
}
use hydr.Frame
use hydr.Message.{
  AuthRequest, AuthResponse, OpenStream, OpenStreamAck, Datagram, decode_auth_request,
  encode_auth_response, decode_auth_response, response_error, decode_open_stream,
  encode_open_stream_ack, decode_open_stream_ack, decode_datagram, status_ok, status_err,
  err_protocol,
}
use hydr.Varint.{decode_varint}
use hydr.Ws.{new_credit, grant}
use hydr.Ws.Session.{Conn, Validator, incoming, datagram, send_frame, emit, answer_open}

-- `HashSet::insert`
unfoldable pub add_session : ℕ → List ℕ → List ℕ
add_session id ss = if contains id ss then ss else id ∷ ss

-- `Ok(r) if r.status == STATUS_OK`
unfoldable pub accepted : Result AuthResponse → Bool
accepted (ok r) = r.status == status_ok
accepted (err e) = false
accepted panic = false

-- `resp.unwrap_or_else(|e| AuthResponse::error(&e.to_string()))`. A validator returns, so `panic` is no result of it.
unfoldable pub response_of : Result AuthResponse → AuthResponse
response_of (ok r) = r
response_of (err e) = response_error (to_string e)
response_of panic = response_error []

-- Whether frames of a stream are refused because its session is not authenticated.
unfoldable pub blocked : Option (List ℕ) → ℕ → Bool
blocked none id = false
blocked (some ss) id = not (id == 0) && not (contains id ss)

-- `AuthResponse::decode(…).map(|(r, _)| r)`
unfoldable pub response_in : Result (AuthResponse × ℕ) → Result AuthResponse
response_in (ok (r, used)) = ok r
response_in (err e) = err e
response_in panic = panic

unfoldable pub refusal : OpenStreamAck
refusal = record {
  status = status_err;
  error_code = err_protocol;
  message = text "session not authenticated";
}

module _ {V : Type 0} where
  unfoldable pub deliver_request : Conn V → AuthRequest → Conn V
  deliver_request c req =
      if c.server_auth_done
      then record c { server_auth_done = false; request_done = c.request_done ++ (req ∷ []) }
      else c

  unfoldable pub grant_session : Conn V → ℕ → Result AuthResponse → Conn V
  unfolding accepted add_session
  grant_session c id resp = elim c.sessions [
    | none ↦ c
    | some ss ↦ if accepted resp then record c { sessions = some (add_session id ss) } else c
  ]

  -- The closure on a decoded request, and `unwrap_or_else` on a failed one.
  unfoldable pub validated :
      Validator V → Conn V → ℕ → Result (AuthRequest × ℕ) → AuthResponse × Conn V
  unfolding response_of deliver_request grant_session
  validated validate c id (ok (req, used)) =
      let (resp, shared') = validate c.shared req in
      let c' = record c { shared = shared' } in
      (response_of resp, if id == 0 then deliver_request c' req else grant_session c' id resp)
  validated validate c id (err e) = (response_error (text "bad request"), c)
  validated validate c id panic = (response_error (text "bad request"), c)

  unfoldable pub on_auth_request :
      Option (Validator V) → Conn V → Frame → Result (Unit {0}) × Conn V
  unfolding validated send_frame
  on_auth_request none c f = (ok tt, c)
  on_auth_request (some validate) c f =
      let (resp, c') = validated validate c f.stream_id (decode_auth_request f.body) in
      send_frame c' (Frame.new f.stream_id frame_auth_response (encode_auth_response [] resp))

  unfoldable pub answer_session : Conn V → ℕ → Map ℕ → Result AuthResponse → Conn V
  answer_session c id waiting resp = elim (get id waiting) [
    | none ↦ c
    | some ticket ↦ record c {
      pending_auth = some (remove_entry id waiting);
      session_done = c.session_done ++ ((ticket, resp) ∷ []);
    }
  ]

  unfoldable pub on_auth_response : Conn V → Frame → Conn V
  unfolding response_in answer_session
  on_auth_response c f =
      let resp = response_in (decode_auth_response f.body) in
      if (f.stream_id == 0) && c.auth_response
      then record c { auth_response = false; response_done = c.response_done ++ (resp ∷ []) }
      else elim c.pending_auth [
        | none ↦ c
        | some waiting ↦ answer_session c f.stream_id waiting resp
      ]

  unfoldable pub incoming_open : Conn V → ℕ → Result (OpenStream × ℕ) → Conn V
  unfolding emit
  incoming_open c id (ok (req, used)) = emit c (incoming id req.address)
  incoming_open c id (err e) = c
  incoming_open c id panic = c

  unfoldable pub on_open_stream : Utf8 → Conn V → Frame → Result (Unit {0}) × Conn V
  unfolding blocked refusal send_frame incoming_open
  on_open_stream u c f =
      if blocked c.sessions f.stream_id
      then send_frame c
          (Frame.new f.stream_id frame_open_stream_ack (encode_open_stream_ack [] refusal))
      else (ok tt, incoming_open c f.stream_id (decode_open_stream u f.body))

  -- The credit and the queue of a stream that was agreed on.
  unfoldable pub start_stream : Conn V → ℕ → Conn V
  unfolding put
  start_stream c id = record c {
    credits = put id new_credit c.credits;
    streams = put id [] c.streams;
  }

  unfoldable pub opened : Utf8 → Conn V → ℕ → ℕ → Result (OpenStreamAck × ℕ) → Conn V
  unfolding start_stream answer_open
  opened u c id ticket (ok (ack, used)) =
      if ack.status == status_ok
      then answer_open (start_stream c id) ticket (ok tt)
      else answer_open c ticket (err (message (u.from_utf8_lossy ack.message)))
  opened u c id ticket (err e) = answer_open c ticket (err e)
  opened u c id ticket panic = answer_open c ticket panic

  unfoldable pub on_open_stream_ack : Utf8 → Conn V → Frame → Conn V
  unfolding opened
  on_open_stream_ack u c f = elim (get f.stream_id c.pending) [
    | none ↦ c
    | some ticket ↦
        opened u (record c { pending = remove_entry f.stream_id c.pending }) f.stream_id ticket
          (decode_open_stream_ack f.body)
  ]

  unfoldable pub on_stream_data : Conn V → Frame → Conn V
  on_stream_data c f = elim (get f.stream_id c.streams) [
    | none ↦ c
    | some chunks ↦ record c { streams = put f.stream_id (chunks ++ (f.body ∷ [])) c.streams }
  ]

  unfoldable pub grant_credit : Conn V → ℕ → Result (ℕ × ℕ) → Conn V
  grant_credit c id (ok (amt, used)) = elim (get id c.credits) [
    | none ↦ c
    | some credit ↦ record c { credits = put id (grant credit amt) c.credits }
  ]
  grant_credit c id (err e) = c
  grant_credit c id panic = c

  unfoldable pub on_stream_credit : Conn V → Frame → Conn V
  unfolding grant_credit
  on_stream_credit c f =
      if f.stream_id == 0 then c else grant_credit c f.stream_id (decode_varint f.body)

  unfoldable pub on_stream_close : Conn V → Frame → Conn V
  on_stream_close c f = record c {
    credits = remove_entry f.stream_id c.credits;
    streams = remove_entry f.stream_id c.streams;
  }

  unfoldable pub incoming_datagram : Conn V → Result (Datagram × ℕ) → Conn V
  unfolding emit
  incoming_datagram c (ok (dg, used)) = emit c (datagram dg)
  incoming_datagram c (err e) = c
  incoming_datagram c panic = c

  unfoldable pub on_datagram : Utf8 → Conn V → Frame → Conn V
  unfolding blocked incoming_datagram
  on_datagram u c f =
      if blocked c.sessions f.stream_id then c else incoming_datagram c (decode_datagram u f.body)

  -- The `match` on the type of the frame.
  unfoldable pub dispatch :
      Utf8 → Option (Validator V) → Conn V → Frame → Result (Unit {0}) × Conn V
  unfolding on_auth_request on_auth_response on_open_stream on_open_stream_ack on_stream_data
      on_stream_credit on_stream_close on_datagram send_frame
  dispatch u auth c f =
      if f.frame_type == frame_auth_request
      then on_auth_request auth c f
      else if f.frame_type == frame_auth_response
      then (ok tt, on_auth_response c f)
      else if f.frame_type == frame_open_stream
      then on_open_stream u c f
      else if f.frame_type == frame_open_stream_ack
      then (ok tt, on_open_stream_ack u c f)
      else if f.frame_type == frame_stream_data
      then (ok tt, on_stream_data c f)
      else if f.frame_type == frame_stream_credit
      then (ok tt, on_stream_credit c f)
      else if f.frame_type == frame_stream_close
      then (ok tt, on_stream_close c f)
      else if f.frame_type == frame_datagram
      then (ok tt, on_datagram u c f)
      else if f.frame_type == frame_ping
      then send_frame c (Frame.new 0 frame_pong f.body)
      else (ok tt, c)

  unfoldable pub decoded :
      Utf8 → Option (Validator V) → Conn V → Result (Frame × ℕ) → Result (Unit {0}) × Conn V
  unfolding dispatch
  decoded u auth c (ok (f, used)) = dispatch u auth c f
  decoded u auth c (err e) = (err e, c)
  decoded u auth c panic = (panic, c)

  unfoldable pub handle_frame :
      Utf8 → Option (Validator V) → Conn V → List ℕ → Result (Unit {0}) × Conn V
  unfolding decoded
  handle_frame u auth c bytes = decoded u auth c (Frame.decode bytes)
