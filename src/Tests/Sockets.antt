-- ===== src/Tests/Sockets.antt =====
-- The theorems about the WebSocket tunnel and what the server does with a tunnel at concrete inputs.
use hydr.Base.{
  ℕ, ◌+◌, ◌≡◌, ◌≢◌, refl, arith, List, [], ◌∷◌, ◌++◌, map, true, false, none, some, All,
  if◌then◌else◌,
}
use hydr.Base.Blake3.{toy}
use hydr.Base.Results.{ok, panic, text, Returns}
use hydr.Base.Utf8.{ascii}
use hydr.Address.{Address, domain}
use hydr.Frame
use hydr.Frame.{Frame, frame_open_stream}
use hydr.Message.{AuthRequest, AuthResponse, encode_open_stream}
use hydr.Message.RoundTrip.{Fits}
use hydr.Metrics
use hydr.Obfuscator
use hydr.Replay
use hydr.Ws.{encode_frame}
use hydr.Ws.Session.{Conn, Validator, OutMsg, incoming, client_conn, server_conn}
use hydr.Ws.Dispatch.{
  response_of, accepted, add_session, on_auth_request, on_auth_response, on_open_stream,
  handle_frame, start_stream,
}
use hydr.Ws.Run.{send_cmd, open_cmd, close_cmd, Input, cmd, binary, read_error, Task, run}
use hydr.Ws.Tickets.{answers_of, waits_of, asks_of}
use hydr.Ws.Answers.{taken, run-answered}
use hydr.Ws.Mux.{Told}
use hydr.Ws.Vouched.{Admitted, run-vouched}
use hydr.Ws.Writer.{received, writer, handle_all}
use hydr.Ws.Delivery.{data_frames, run-writer}
use hydr.Ws.Arrival.{Paired}
use hydr.Ws.Handle.{authenticate}
use hydr.Ws.Login.{
  answer_frame, request_frame, authenticate-on_auth_request, on_auth_request-any_status,
}
use hydr.Ws.Closing.{run-Stops, run-left_waiting}
use hydr.Ws.Safety.{Readable, handle_frame-ne-panic}

abbrev task : Task (Unit {0})
task = record { conn = client_conn; obfuscation = none; metrics = Metrics.new }

abbrev host : Address
host = domain (text "a.b") 443

-- A stream is asked for, and the socket fails.
abbrev inputs : List Input
inputs = cmd (open_cmd 1 host 7) ∷ (read_error ∷ (cmd close_cmd ∷ []))

inputs_end : (run toy ascii none task inputs).1 ≡ false
inputs_end =
    run-Stops toy ascii none task (cmd (open_cmd 1 host 7) ∷ []) read_error (cmd close_cmd ∷ []) tt

run-Stops_example :
    (run toy ascii none task (cmd (open_cmd 1 host 7) ∷ (read_error ∷ (cmd close_cmd ∷ [])))).1
    ≡ false
run-Stops_example =
    run-Stops toy ascii none task (cmd (open_cmd 1 host 7) ∷ []) read_error (cmd close_cmd ∷ []) tt

run-answered_example :
    answers_of 7 (run toy ascii none task inputs).0.conn.open_done
    ≡ asks_of 7 (taken toy ascii none task inputs)
      + (answers_of 7 task.conn.open_done + waits_of 7 task.conn.pending)
run-answered_example = run-answered toy ascii none task inputs 7 inputs_end

run-left_waiting_example :
    ((run toy ascii none task (read_error ∷ [])).0.conn.session_done ≡ task.conn.session_done)
    × ((run toy ascii none task (read_error ∷ [])).0.conn.pending_auth ≡ task.conn.pending_auth)
    × ((run toy ascii none task (read_error ∷ [])).0.conn.pending ≡ [])
run-left_waiting_example = run-left_waiting toy ascii none task read_error [] tt

abbrev cut_short : List ℕ
cut_short = 0 ∷ (3 ∷ (9 ∷ []))

handle_frame-ne-panic_example :
    ((handle_frame {V = Unit {0}} ascii none client_conn cut_short).0 ≢ panic)
    × Returns (Readable ascii) (Frame.decode cut_short)
handle_frame-ne-panic_example =
    handle_frame-ne-panic ascii none client_conn cut_short
      (omega arith, (omega arith, (omega arith, tt)))

-- A validator that counts the requests and refuses them all, and one that accepts them.
abbrev refused : AuthResponse
refused = record {
  status = 1;
  error_code = 1;
  message = text "no";
  server_cc_rx = 0;
  server_features = 0;
  padding = [];
}

abbrev refuses : Validator ℕ
refuses n req = (ok refused, n + 1)

abbrev accepts : Validator ℕ
accepts n req = (ok (record refused { status = 0; error_code = 0 }), n + 1)

abbrev nobody : AuthRequest
nobody = record {
  version = 1;
  auth_method = 1;
  client_nonce = [];
  auth_proof = [];
  cc_rx = 0;
  features = 0;
  padding = [];
}

nobody-Fits : Fits nobody
nobody-Fits = record {
  version = omega arith;
  nonce = omega arith;
  proof = omega arith;
  rate = omega arith;
  padding = omega arith;
}

on_auth_request-any_status_example :
    let c = (on_auth_request (some refuses) (server_conn 0 false) (request_frame 0 nobody)).1 in
    let open_frame =
      Frame.new 5 frame_open_stream (encode_open_stream [] (record { address = host })) in
    (c.request_done ≡ nobody ∷ [])
    × ((on_open_stream ascii c open_frame).1.events ≡ incoming 5 host ∷ [])
on_auth_request-any_status_example =
    on_auth_request-any_status ascii refuses 0 nobody 5 host nobody-Fits
      ((omega arith, (omega arith, (omega arith, tt))), omega arith) (omega arith)

abbrev muxed : Conn ℕ
muxed = server_conn 0 true

authenticate-on_auth_request_example :
    ((authenticate {V = Unit {0}} client_conn 4 nobody 9).1 ≡ send_cmd (request_frame 4 nobody))
    × ((on_auth_request (some accepts) muxed (request_frame 4 nobody)).1.frames
        ≡ muxed.frames
          ++ (OutMsg.frame (answer_frame 4 (response_of (accepts muxed.shared nobody).0)) ∷ []))
    × ((on_auth_request (some accepts) muxed (request_frame 4 nobody)).1.sessions
        ≡ some (if accepted (accepts muxed.shared nobody).0 then add_session 4 [] else []))
    × ((on_auth_response
          (authenticate client_conn 4 nobody 9).0
          (answer_frame 4 (response_of (accepts muxed.shared nobody).0))).session_done
        ≡ client_conn.session_done ++ ((9, ok (response_of (accepts muxed.shared nobody).0)) ∷ []))
unfolding client_conn server_conn
authenticate-on_auth_request_example =
    authenticate-on_auth_request accepts client_conn muxed 4 9 nobody [] [] nobody-Fits
      (unfold response_of in
        record { message = omega arith; rate = omega arith; padding = omega arith })
      refl refl refl refl

abbrev node : Task ℕ
node = record { conn = muxed; obfuscation = none; metrics = Metrics.new }

abbrev session : List Input
session =
    binary (encode_frame (request_frame 4 nobody))
    ∷ (binary (
          encode_frame
            (Frame.new 4 frame_open_stream (encode_open_stream [] (record { address = host }))))
        ∷ [])

run-vouched_example :
    All
      (Told (Admitted toy ascii (some accepts) node session))
      (run toy ascii (some accepts) node session).0.conn.events
unfolding server_conn
run-vouched_example = run-vouched toy ascii (some accepts) node session refl refl

-- Both ends share a key, and the receiver has stream 3 open.
abbrev key : List ℕ
key = 7 ∷ (7 ∷ [])

abbrev salt : List ℕ
salt = 1 ∷ 2 ∷ 3 ∷ 4 ∷ 5 ∷ 6 ∷ 7 ∷ 8 ∷ []

abbrev chunks : List (List ℕ × List ℕ)
chunks = (salt, 104 ∷ (105 ∷ [])) ∷ ((salt, 33 ∷ []) ∷ [])

abbrev receiver : Task (Unit {0})
receiver = record {
  conn = start_stream client_conn 3;
  obfuscation = some (Obfuscator.new toy key);
  metrics = Metrics.new;
}

receiver-Paired : Paired 2 (some (Obfuscator.new toy key)) receiver.obfuscation
unfolding Obfuscator.new Replay.new
receiver-Paired = (
  refl,
  refl,
  omega arith,
  record { bottom = omega arith; last = omega arith; unseen = λ x p. refl },
)

run-writer_example :
    ((run toy ascii none receiver
        (map received (writer toy (some (Obfuscator.new toy key)) (data_frames 3 chunks)))).0.conn
      ≡ (handle_all ascii none receiver.conn (data_frames 3 chunks)).0)
    × ((run toy ascii none receiver
          (map received (writer toy (some (Obfuscator.new toy key)) (data_frames 3 chunks)))).1
        ≡ (handle_all ascii none receiver.conn (data_frames 3 chunks)).1)
run-writer_example =
    run-writer toy ascii none (data_frames 3 chunks) receiver (some (Obfuscator.new toy key))
      receiver-Paired ((refl, omega arith, omega arith), ((refl, omega arith, omega arith), tt))
