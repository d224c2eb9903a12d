-- ===== src/Ws/Run.antt =====
-- The loop `run` of crates/hydr-transport/src/ws.rs, over what its `select!` finds ready, in any order,
-- and the methods of the handle and the tunnel that talk to it.
use hydr.Base.{
  ℕ, List, [], ◌∷◌, ◌++◌, Bool, true, false, Option, none, some, ◌==◌, ◌&&◌, if◌then◌else◌,
}
use hydr.Base.Blake3.{Blake3}
use hydr.Base.Maps.{Map, get, put}
use hydr.Base.Results.{Result, ok, err, panic, stream_closed}
use hydr.Base.Utf8.{Utf8}
use hydr.Address.{Address}
use hydr.Frame.{
  Frame, frame_open_stream, frame_open_stream_ack, frame_auth_request, frame_datagram,
  frame_stream_close,
}
use hydr.Frame
use hydr.Message.{encode_open_stream, encode_open_stream_ack, status_ok}
use hydr.Metrics.{Metrics}
use hydr.Obfuscator.{Obfuscator}
use hydr.Ws.{Inbound, frame, drop_frame, close, inbound}
use hydr.Ws.Session.{Conn, Validator, OutMsg, send_frame, answer_open}
use hydr.Ws.Dispatch.{handle_frame, start_stream}

-- `Cmd`, without the pipes; the ticket of `open_cmd` is its one-shot channel.
pub data Cmd : Type 0 where
  send_cmd : Frame → Cmd
  open_cmd : (id : ℕ) (addr : Address) (ticket : ℕ) → Cmd
  reply_open_cmd : (id status error_code : ℕ) (message : List ℕ) → Cmd
  close_cmd : Cmd

-- What one turn of the loop may find: the end of the writer's task, a command, a message, an error or
-- the timer. A pong is dropped where the queue is full. At `socket_failed` the writer stops taking
-- frames, which the loop has yet to find out.
pub data Input : Type 0 where
  writer_done : Input
  socket_failed : Input
  cmd : Cmd → Input
  binary : List ℕ → Input
  ws_ping : (payload : List ℕ) (room : Bool) → Input
  other_message : Input
  read_error : Input
  tick : Input

-- The state of the task with its obfuscator and the metrics that this one counts in.
pub record Task (V : Type 0) : Type 0 where
  pub conn : Conn V
  pub obfuscation : Option Obfuscator
  pub metrics : Metrics

unfoldable pub keeps_going : Result (Unit {0}) → Bool
keeps_going (ok done) = true
keeps_going (err e) = false
keeps_going panic = false

module _ {V : Type 0} where
  -- An insertion drops the sender that it replaces, whose receiver finds the stream closed.
  unfoldable pub await_ack : Conn V → ℕ → ℕ → Conn V
  unfolding answer_open
  await_ack c id ticket =
      let c' : Conn V = elim (get id c.pending) [
        | none ↦ c
        | some old ↦ answer_open c old (err stream_closed)
      ] in
      record c' { pending = put id ticket c.pending }

  -- The commands; the Boolean is `done`, and a command that fails drops its ticket.
  unfoldable pub on_cmd : Conn V → Cmd → Conn V × Bool
  unfolding await_ack send_frame answer_open start_stream
  on_cmd c (send_cmd f) = ((send_frame c f).1, c.writer_alive)
  on_cmd c (open_cmd id addr ticket) =
      let c' =
        (send_frame c
          (Frame.new id frame_open_stream (encode_open_stream [] (record { address = addr })))).1 in
      (
        if c.writer_alive
            then await_ack c' id ticket
            else answer_open c' ticket (err stream_closed),
        c.writer_alive,
      )
  on_cmd c (reply_open_cmd id status error_code message) =
      let body =
        encode_open_stream_ack []
          (record { status = status; error_code = error_code; message = message }) in
      let c' = (send_frame c (Frame.new id frame_open_stream_ack body)).1 in
      (
        if c.writer_alive then (if status == status_ok then start_stream c' id else c') else c',
        c.writer_alive,
      )
  on_cmd c close_cmd = (c, false)

  -- What follows the loop.
  unfoldable pub close_pending : Map ℕ → Conn V → Conn V
  unfolding answer_open
  close_pending [] c = c
  close_pending ((id, ticket) ∷ waiting) c =
      close_pending waiting (answer_open c ticket (err stream_closed))

  unfoldable pub finish : Conn V → Conn V
  unfolding close_pending
  finish c =
      let c' = record (close_pending c.pending c) { pending = [] } in
      if c'.auth_response
      then record c' {
        auth_response = false;
        response_done = c'.response_done ++ (err stream_closed ∷ []);
      }
      else c'

  module _ (b3 : Blake3) (u : Utf8) (auth : Option (Validator V)) where
    unfoldable pub on_inbound : Conn V → Inbound → Conn V × Bool
    unfolding handle_frame keeps_going
    on_inbound c (frame bytes) = let (r, c') = handle_frame u auth c bytes in (c', keeps_going r)
    on_inbound c drop_frame = (c, true)
    on_inbound c close = (c, false)

    -- One turn; the Boolean tells whether the loop goes on.
    unfoldable pub turn : Task V → Input → Task V × Bool
    unfolding on_cmd on_inbound inbound send_frame
    turn t writer_done = (t, false)
    turn t socket_failed = (record t { conn = record (t.conn) { writer_alive = false } }, true)
    turn t (cmd command) = let (c, done) = on_cmd t.conn command in (record t { conn = c }, done)
    turn t (binary bytes) =
        let (got, (ob, m)) = inbound b3 t.metrics bytes t.obfuscation in
        let (c, done) = on_inbound t.conn got in
        (record { conn = c; obfuscation = ob; metrics = m }, done)
    turn t (ws_ping payload room) = (
      if room && t.conn.writer_alive
          then record t {
            conn = record (t.conn) { frames = t.conn.frames ++ (OutMsg.ws_pong payload ∷ []) };
          }
          else t,
      true,
    )
    turn t other_message = (t, true)
    turn t read_error = (t, false)
    turn t tick =
        let (r, c) = send_frame t.conn Frame.ping in (record t { conn = c }, keeps_going r)

    -- The task over some inputs; the Boolean tells whether it is still in its loop.
    unfoldable pub run : Task V → List Input → Task V × Bool
    unfolding turn finish
    run t [] = (t, true)
    run t (i ∷ is) =
        let (t', goes_on) = turn t i in
        elim goes_on [ true ↦ run t' is | false ↦ (record t' { conn = finish t'.conn }, false) ]
