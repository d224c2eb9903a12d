-- ===== src/Ws/Closing.antt =====
-- The end of a WebSocket tunnel in crates/hydr-transport/src/ws.rs: what stops the loop, and what does not.
use hydr.Base.{
  ℕ, ◌≡◌, refl, ◌∙◌, arith, List, [], ◌∷◌, ◌++◌, true, false, Option, Bool-cases, inl, inr,
}
use hydr.Base.Blake3.{Blake3}
use hydr.Base.Maps.{Map, remove_entry}
use hydr.Base.Results.{ok, err, stream_closed}
use hydr.Base.Utf8.{Utf8}
use hydr.Ws.{encode_frame}
use hydr.Ws.Session.{Conn, Validator, OutMsg, send_frame, answer_open}
use hydr.Ws.Dispatch.{dispatch, handle_frame, on_stream_close}
use hydr.Ws.Arrival.{handle_frame-encode_frame}
use hydr.Ws.Handle.{close_tunnel}
use hydr.Ws.Run.{
  send_cmd, open_cmd, reply_open_cmd, close_cmd, Input, writer_done, socket_failed, cmd, binary,
  ws_ping, other_message, read_error, tick, Task, on_cmd, turn, close_pending, finish, run,
}

-- The command to close, an error of the socket, and the end of the writer.
abbrev pub Stops : Input → Type 0
Stops writer_done = Unit
Stops socket_failed = ⊥
Stops (cmd (send_cmd f)) = ⊥
Stops (cmd (open_cmd id addr ticket)) = ⊥
Stops (cmd (reply_open_cmd id status error_code message)) = ⊥
Stops (cmd close_cmd) = Unit
Stops (binary bytes) = ⊥
Stops (ws_ping payload room) = ⊥
Stops other_message = ⊥
Stops read_error = Unit
Stops tick = ⊥

module _ {V : Type 0} where
  -- Nothing changes for those who wait for the answer to a session's login.
  abbrev Waits : Conn V → Conn V → Type 0
  Waits c' c = (c'.session_done ≡ c.session_done) × (c'.pending_auth ≡ c.pending_auth)

  close_pending-Waits : (m : Map ℕ) (c : Conn V) → Waits (close_pending m c) c
  unfolding close_pending answer_open
  close_pending-Waits [] c = (refl, refl)
  close_pending-Waits ((id, k) ∷ m) c = close_pending-Waits m (answer_open c k (err stream_closed))

  finish-Waits : (c : Conn V) → Waits (finish c) c
  unfolding finish
  finish-Waits c = elim (Bool-cases (close_pending c.pending c).auth_response) [
    | inl waits ↦ rw waits (close_pending-Waits c.pending c)
    | inr answered ↦ rw answered (close_pending-Waits c.pending c)
  ]

  none_pending : (c : Conn V) → (finish c).pending ≡ []
  unfolding finish
  none_pending c = elim (Bool-cases (close_pending c.pending c).auth_response) [
    | inl waits ↦ rw waits refl
    | inr answered ↦ rw answered refl
  ]

module _ {V : Type 0} (b3 : Blake3) (u : Utf8) (auth : Option (Validator V)) where
  turn-Stops : (t : Task V) (i : Input) → Stops i → (turn b3 u auth t i).1 ≡ false
  unfolding turn on_cmd
  turn-Stops t writer_done h = refl
  turn-Stops t socket_failed h = absurd h
  turn-Stops t (cmd (send_cmd f)) h = absurd h
  turn-Stops t (cmd (open_cmd id addr ticket)) h = absurd h
  turn-Stops t (cmd (reply_open_cmd id status error_code message)) h = absurd h
  turn-Stops t (cmd close_cmd) h = refl
  turn-Stops t (binary bytes) h = absurd h
  turn-Stops t (ws_ping payload room) h = absurd h
  turn-Stops t other_message h = absurd h
  turn-Stops t read_error h = refl
  turn-Stops t tick h = absurd h

  -- The loop has ended, at the latest, once it is told to close, the socket fails to be read, or the writer ends:
  -- whatever came before and comes after, and in every state.
  pub run-Stops :
      (t : Task V) (before : List Input) (i : Input) (after : List Input)
      → Stops i
      → (run b3 u auth t (before ++ (i ∷ after))).1 ≡ false
  unfolding run
  run-Stops t [] i after h = rw (turn-Stops t i h, run) refl
  run-Stops t (j ∷ before) i after h = elim (Bool-cases (turn b3 u auth t j).1) [
    | inl more ↦ rw (more, run) (run-Stops (turn b3 u auth t j).0 before i after h)
    | inr last ↦ rw (last, run) refl
  ]

  -- `WsTunnel::close` ends neither loop: on a tunnel whose writer is alive the loop only sends one more frame, and
  -- the loop of the other end takes that frame to be about a stream of number 0.
  pub close_tunnel-goes_on :
      (t : Task V) (peer : Conn V)
      → t.conn.writer_alive ≡ true
      → ((turn b3 u auth t (cmd (send_cmd close_tunnel))).1 ≡ true)
        × ((turn b3 u auth t (cmd (send_cmd close_tunnel))).0.conn.frames
            ≡ t.conn.frames ++ (OutMsg.frame close_tunnel ∷ []))
        × (handle_frame u auth peer (encode_frame close_tunnel) ≡ (
          ok tt,
          record peer {
            credits = remove_entry 0 peer.credits;
            streams = remove_entry 0 peer.streams;
          },
        ))
  unfolding turn on_cmd send_frame dispatch on_stream_close
  close_tunnel-goes_on t peer alive = (
    alive,
    rw (alive, send_frame) refl,
    handle_frame-encode_frame b3 u auth peer close_tunnel (omega arith) (omega arith),
  )

  turn-Waits : (t : Task V) (i : Input) → Stops i → Waits (turn b3 u auth t i).0.conn t.conn
  unfolding turn on_cmd
  turn-Waits t writer_done h = (refl, refl)
  turn-Waits t socket_failed h = absurd h
  turn-Waits t (cmd (send_cmd f)) h = absurd h
  turn-Waits t (cmd (open_cmd id addr ticket)) h = absurd h
  turn-Waits t (cmd (reply_open_cmd id status error_code message)) h = absurd h
  turn-Waits t (cmd close_cmd) h = (refl, refl)
  turn-Waits t (binary bytes) h = absurd h
  turn-Waits t (ws_ping payload room) h = absurd h
  turn-Waits t other_message h = absurd h
  turn-Waits t read_error h = (refl, refl)
  turn-Waits t tick h = absurd h

  -- When the loop stops at a command to close, an error of the socket or the end of the writer, those
  -- who wait for the answer to a session's login are told nothing and are left waiting, and no stream
  -- waits any more.
  pub run-left_waiting :
      (t : Task V) (i : Input) (after : List Input)
      → Stops i
      → ((run b3 u auth t (i ∷ after)).0.conn.session_done ≡ t.conn.session_done)
        × ((run b3 u auth t (i ∷ after)).0.conn.pending_auth ≡ t.conn.pending_auth)
        × ((run b3 u auth t (i ∷ after)).0.conn.pending ≡ [])
  unfolding run
  run-left_waiting t i after h =
      let (told, waiting) = turn-Waits t i h in
      let (told', waiting') = finish-Waits (turn b3 u auth t i).0.conn in
      rw (turn-Stops t i h, run)
        (told' ∙ told, waiting' ∙ waiting, none_pending (turn b3 u auth t i).0.conn)
