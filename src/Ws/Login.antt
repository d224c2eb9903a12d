-- ===== src/Ws/Login.antt =====
-- Authentication over crates/hydr-transport/src/ws.rs, from the request of a client to the answer it gets.
use hydr.Base.{
  ℕ, ◌<◌, ◌^◌, ◌≡◌, refl, ap, ◌∙◌, List, [], ◌∷◌, ◌++◌, append-nil, true, false, none, some,
}
use hydr.Base.{length, ◌==◌, ==_refl, Bool-cases, inl, inr, if◌then◌else◌}
use hydr.Base.Maps.{Map, get, put, remove_entry}
use hydr.Base.Results.{ok}
use hydr.Base.Sets.{nat_eq}
use hydr.Base.Utf8.{Utf8}
use hydr.Address.{Address, IsAddress, name_length}
use hydr.Frame
use hydr.Frame.{Frame, frame_auth_request, frame_auth_response, frame_open_stream}
use hydr.Message.{
  AuthRequest, AuthResponse, OpenStream, decode_auth_request, encode_auth_request,
  decode_auth_response, encode_auth_response, encode_open_stream, decode_open_stream,
}
use hydr.Message.RoundTrip.{
  auth_request-decode-encode, auth_response-decode-encode, open_stream-decode-encode,
}
use hydr.Message.RoundTrip.{Fits, FitsResponse}
use hydr.Ws.Session.{Conn, Validator, OutMsg, incoming, server_conn, send_frame, emit}
use hydr.Ws.Dispatch.{
  accepted, response_of, validated, deliver_request, grant_session, add_session, on_auth_request,
  response_in, answer_session, on_auth_response, blocked, incoming_open, on_open_stream,
}
use hydr.Ws.Handle.{authenticate}
use hydr.Ws.Run.{send_cmd}

-- The frame that answers a request.
abbrev pub answer_frame : ℕ → AuthResponse → Frame
answer_frame id resp = Frame.new id frame_auth_response (encode_auth_response [] resp)

abbrev pub request_frame : ℕ → AuthRequest → Frame
request_frame id req = Frame.new id frame_auth_request (encode_auth_request [] req)

request_read :
    (req : AuthRequest)
    → Fits req
    → decode_auth_request (encode_auth_request [] req)
      ≡ ok (req, length (encode_auth_request [] req))
request_read req h =
    rw (append-nil (encode_auth_request [] req)) at (auth_request-decode-encode req h [])

response_read :
    (resp : AuthResponse)
    → FitsResponse resp
    → decode_auth_response (encode_auth_response [] resp)
      ≡ ok (resp, length (encode_auth_response [] resp))
response_read resp h =
    rw (append-nil (encode_auth_response [] resp)) at (auth_response-decode-encode resp h [])

module _ {V : Type 0} where
  -- The server's side of a session's login.
  on_auth_request-session :
      (validate : Validator V) (c : Conn V) (id : ℕ) (req : AuthRequest) (ss : List ℕ)
      → Fits req
      → (id == 0) ≡ false
      → c.sessions ≡ some ss
      → c.writer_alive ≡ true
      → ((on_auth_request (some validate) c (request_frame id req)).1.frames
          ≡ c.frames
            ++ (OutMsg.frame (answer_frame id (response_of (validate c.shared req).0)) ∷ []))
        × ((on_auth_request (some validate) c (request_frame id req)).1.sessions
            ≡ some (if accepted (validate c.shared req).0 then add_session id ss else ss))
  unfolding on_auth_request validated grant_session send_frame
  on_auth_request-session validate c id req ss h other e alive =
      elim (Bool-cases (accepted (validate c.shared req).0)) [
        | inl fine ↦ rw (request_read req h, other, e, fine, alive) (refl, refl)
        | inr refused ↦ rw (request_read req h, other, e, refused, alive) (refl, refl)
      ]

  -- The client's side.
  on_auth_response-session :
      (c : Conn V) (id ticket : ℕ) (req : AuthRequest) (resp : AuthResponse) (waiting : Map ℕ)
      → FitsResponse resp
      → (id == 0) ≡ false
      → c.pending_auth ≡ some waiting
      → ((on_auth_response (authenticate c id req ticket).0 (answer_frame id resp)).session_done
          ≡ c.session_done ++ ((ticket, ok resp) ∷ []))
        × ((on_auth_response (authenticate c id req ticket).0 (answer_frame id resp)).pending_auth
            ≡ some (remove_entry id waiting))
  unfolding on_auth_response authenticate response_in answer_session get put remove_entry
  on_auth_response-session c id ticket req resp waiting h other e =
      let resp' = response_in (decode_auth_response (encode_auth_response [] resp)) in
      let read : resp' ≡ ok resp = rw (response_read resp h) refl in
      rw (other, e, ==_refl id, answer_session)
        (ap (λ r. c.session_done ++ ((ticket, r) ∷ [])) read, rw (==_refl id, remove_entry) refl)

module _ {V : Type 0} where
  -- A session that the client authenticates on a stream other than 0, on a connection with `mux` whose writer is alive:
  -- the server sends one answer, with the response of the validator, and admits the session if that accepts; the
  -- client hands just this response to the caller who waits for it. The request and the response fit the format.
  pub authenticate-on_auth_request :
      (validate : Validator V) (client : Conn (Unit {0})) (server : Conn V) (id ticket : ℕ)
      (req : AuthRequest) (waiting : Map ℕ) (ss : List ℕ)
      → Fits req
      → FitsResponse (response_of (validate server.shared req).0)
      → (id == 0) ≡ false
      → client.pending_auth ≡ some waiting
      → server.sessions ≡ some ss
      → server.writer_alive ≡ true
      → ((authenticate client id req ticket).1 ≡ send_cmd (request_frame id req))
        × ((on_auth_request (some validate) server (request_frame id req)).1.frames
            ≡ server.frames
              ++ (OutMsg.frame (answer_frame id (response_of (validate server.shared req).0)) ∷ []))
        × ((on_auth_request (some validate) server (request_frame id req)).1.sessions
            ≡ some (if accepted (validate server.shared req).0 then add_session id ss else ss))
        × ((on_auth_response
              (authenticate client id req ticket).0
              (answer_frame id (response_of (validate server.shared req).0))).session_done
            ≡ client.session_done
              ++ ((ticket, ok (response_of (validate server.shared req).0)) ∷ []))
  unfolding authenticate
  authenticate-on_auth_request validate client server id ticket req waiting ss h k other e e'
        alive =
      let (sent, admitted) = on_auth_request-session validate server id req ss h other e' alive in
      let resp = response_of (validate server.shared req).0 in
      let (told, left) = on_auth_response-session client id ticket req resp waiting k other e in
      (refl, sent, admitted, told)

  on_open_stream-free :
      (u : Utf8) (c : Conn V) (id : ℕ) (addr : Address)
      → IsAddress u addr
      → name_length addr < 2 ^ 62
      → c.sessions ≡ none
      → (on_open_stream u c (
          Frame.new id frame_open_stream
            (encode_open_stream [] (record { address = addr })))).1.events
        ≡ c.events ++ (incoming id addr ∷ [])
  unfolding on_open_stream blocked incoming_open emit
  on_open_stream-free u c id addr h k e =
      let m : OpenStream = record { address = addr } in
      let read : decode_open_stream u (encode_open_stream [] m)
          ≡ ok (m, length (encode_open_stream [] m)) =
        rw (append-nil (encode_open_stream [] m)) at (open_stream-decode-encode u m [] h k) in
      rw (e, read) refl

  -- On a fresh connection without `mux`, a request on stream 0 is handed to the server's `accept` whatever the
  -- validator says of it, and a stream that is opened next is handed on too. The request and the address fit the format.
  pub on_auth_request-any_status :
      (u : Utf8) (validate : Validator V) (v : V) (req : AuthRequest) (id : ℕ) (addr : Address)
      → Fits req
      → IsAddress u addr
      → name_length addr < 2 ^ 62
      → let c = (on_auth_request (some validate) (server_conn v false) (request_frame 0 req)).1 in
        let open_frame =
          Frame.new id frame_open_stream (encode_open_stream [] (record { address = addr })) in
        (c.request_done ≡ req ∷ [])
        × ((on_open_stream u c open_frame).1.events ≡ incoming id addr ∷ [])
  unfolding on_auth_request validated deliver_request send_frame server_conn
  on_auth_request-any_status u validate v req id addr h k short =
      let c = (on_auth_request (some validate) (server_conn v false) (request_frame 0 req)).1 in
      let got : c.request_done ≡ req ∷ [] = rw (request_read req h) refl in
      let before : c.events ≡ [] = rw (request_read req h) refl in
      let unguarded : c.sessions ≡ none = rw (request_read req h) refl in
      (
        got,
        on_open_stream-free u c id addr k short unguarded
            ∙ ap (λ es. es ++ (incoming id addr ∷ [])) before,
      )
