-- ===== src/Ws/Answers.antt =====
-- crates/hydr-transport/src/ws.rs: whoever opens a stream of a WebSocket tunnel is answered.
use hydr.Base.{ℕ, ◌+◌, ◌≡◌, refl, arith, List, [], ◌∷◌, false, Option}
use hydr.Base.{if◌then◌else◌, Bool-cases, inl, inr}
use hydr.Base.Blake3.{Blake3}
use hydr.Base.Utf8.{Utf8}
use hydr.Frame
use hydr.Frame.{Frame, frame_pong, frame_open_stream, frame_open_stream_ack}
use hydr.Ws.{Inbound, frame, drop_frame, close, inbound}
use hydr.Ws.Session.{Conn, Validator, send_frame}
use hydr.Ws.Run.{
  send_cmd, open_cmd, reply_open_cmd, close_cmd, Input, writer_done, socket_failed, cmd, binary,
  ws_ping, other_message, read_error, tick, Task, on_inbound, turn, run,
}
use hydr.Ws.Tickets.{answers_of, waits_of, asks_of, known, known-Alike, send_frame-Alike}
use hydr.Ws.Known.{known-handle_frame, known-on_cmd, answers_of-finish}

module _ {V : Type 0} (b3 : Blake3) (u : Utf8) (auth : Option (Validator V)) where
  known-on_inbound :
      (ticket : ℕ) (c : Conn V) (got : Inbound)
      → known ticket (on_inbound b3 u auth c got).0 ≡ known ticket c
  unfolding on_inbound
  known-on_inbound ticket c (frame bytes) = known-handle_frame ticket u auth c bytes
  known-on_inbound ticket c drop_frame = refl
  known-on_inbound ticket c close = refl

  known-turn :
      (ticket : ℕ) (t : Task V) (i : Input)
      → known ticket (turn b3 u auth t i).0.conn ≡ asks_of ticket (i ∷ []) + known ticket t.conn
  unfolding turn asks_of known
  known-turn ticket t writer_done = omega arith
  known-turn ticket t socket_failed = omega arith
  known-turn ticket t (cmd command) = known-on_cmd ticket t.conn command
  known-turn ticket t (binary bytes) =
      omega (arith, known-on_inbound ticket t.conn (inbound b3 t.metrics bytes t.obfuscation).0)
  known-turn ticket t (ws_ping payload room) = ground arith
  known-turn ticket t other_message = omega arith
  known-turn ticket t read_error = omega arith
  known-turn ticket t tick = omega (
    arith,
    known-Alike ticket (send_frame t.conn Frame.ping).1 t.conn (send_frame-Alike t.conn Frame.ping),
  )

  -- The inputs that the loop takes before it ends.
  unfoldable pub taken : Task V → List Input → List Input
  unfolding turn
  taken t [] = []
  taken t (i ∷ is) =
      let (t', goes_on) = turn b3 u auth t i in
      let rest = taken t' is in i ∷ (if goes_on then rest else [])

  asks_of-cons :
      (ticket : ℕ) (i : Input) (is : List Input)
      → asks_of ticket (i ∷ is) ≡ asks_of ticket (i ∷ []) + asks_of ticket is
  unfolding asks_of
  asks_of-cons ticket (cmd (send_cmd f)) is = omega arith
  asks_of-cons ticket (cmd (open_cmd id addr k)) is = omega arith
  asks_of-cons ticket (cmd (reply_open_cmd id status error_code message)) is = omega arith
  asks_of-cons ticket (cmd close_cmd) is = omega arith
  asks_of-cons ticket writer_done is = omega arith
  asks_of-cons ticket socket_failed is = omega arith
  asks_of-cons ticket (binary bytes) is = omega arith
  asks_of-cons ticket (ws_ping payload room) is = omega arith
  asks_of-cons ticket other_message is = omega arith
  asks_of-cons ticket read_error is = omega arith
  asks_of-cons ticket tick is = omega arith

  -- Once the loop has ended, every ticket was answered as often as it waited before and was asked for
  -- in the inputs that the loop took.
  pub run-answered :
      (t : Task V) (is : List Input) (ticket : ℕ)
      → (run b3 u auth t is).1 ≡ false
      → answers_of ticket (run b3 u auth t is).0.conn.open_done
        ≡ asks_of ticket (taken t is)
          + (answers_of ticket t.conn.open_done + waits_of ticket t.conn.pending)
  unfolding run taken known
  run-answered t [] ticket ended = absurd (cc)
  run-answered t (i ∷ is) ticket ended =
      let here = known-turn ticket t i in
      elim (Bool-cases (turn b3 u auth t i).1) [
        | inl more ↦
            let rest : (run b3 u auth (turn b3 u auth t i).0 is).1 ≡ false =
              rw (more, run) at ended in
            rw (more, run, taken)
              (omega (
                arith,
                here,
                run-answered (turn b3 u auth t i).0 is ticket rest,
                asks_of-cons ticket i (taken (turn b3 u auth t i).0 is),
              ))
        | inr last ↦
            rw (last, run, taken)
              (omega (arith, here, answers_of-finish ticket (turn b3 u auth t i).0.conn))
      ]
