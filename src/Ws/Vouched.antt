-- ===== src/Ws/Vouched.antt =====
-- The loop of crates/hydr-transport/src/ws.rs with `mux`: who opens a stream has shown a token.
use hydr.Base.{ℕ, ◌≡◌, refl, subst, sym, ◌∙◌, ◌⊎◌, inl, inr, List, [], ◌∷◌, true, Option, some}
use hydr.Base.{◌==◌, ◌&&◌, Bool-cases, Option-cases, All}
use hydr.Base.Blake3.{Blake3}
use hydr.Base.Maps.{Map, get}
use hydr.Base.Results.{Result, ok, err, panic, stream_closed}
use hydr.Base.Utf8.{Utf8}
use hydr.Frame
use hydr.Frame.{Frame, frame_open_stream, frame_open_stream_ack}
use hydr.Message.{encode_open_stream, encode_open_stream_ack, status_ok}
use hydr.Ws.{Inbound, frame, drop_frame, close, inbound}
use hydr.Ws.Session.{Conn, Validator, send_frame, answer_open}
use hydr.Base.{if-All}
use hydr.Ws.Dispatch.{start_stream, decoded, handle_frame}
use hydr.Ws.Run.{
  Cmd, send_cmd, open_cmd, reply_open_cmd, close_cmd, Input, writer_done, socket_failed, cmd,
  binary, ws_ping, other_message, read_error, tick, Task, await_ack, on_cmd, on_inbound, turn,
  close_pending, finish, run,
}
use hydr.Ws.Mux.{Told, Held, MayUse, Held-weaken, Held-Quiet, dispatch-Held}
use hydr.Ws.Quiet.{Quiet, send_frame-Quiet}

module _ {V : Type 0} where
  Quiet-trans : (a b c : Conn V) → Quiet a b → Quiet b c → Quiet a c
  Quiet-trans a b c (s, e) (s', e') = (s ∙ s', e ∙ e')

  await_ack-Quiet : (c : Conn V) (id k : ℕ) → Quiet (await_ack c id k) c
  unfolding await_ack answer_open
  await_ack-Quiet c id k = elim (Option-cases (get id c.pending)) [
    | inl missing ↦ rw (missing, await_ack) (refl, refl)
    | inr (old, found) ↦ rw (found, await_ack) (refl, refl)
  ]

  on_cmd-Quiet : (c : Conn V) (command : Cmd) → Quiet (on_cmd c command).0 c
  unfolding on_cmd start_stream answer_open
  on_cmd-Quiet c (send_cmd f) = send_frame-Quiet c f
  on_cmd-Quiet c (open_cmd id addr k) =
      let f = Frame.new id frame_open_stream (encode_open_stream [] (record { address = addr })) in
      let c' = (send_frame c f).1 in
      let sent = send_frame-Quiet c f in
      if-All (λ (x : Conn V). Quiet x c) c.writer_alive
        (λ alive. Quiet-trans (await_ack c' id k) c' c (await_ack-Quiet c' id k) sent) sent
  on_cmd-Quiet c (reply_open_cmd id status error_code message) =
      let body =
        encode_open_stream_ack []
          (record { status = status; error_code = error_code; message = message }) in
      let sent = send_frame-Quiet c (Frame.new id frame_open_stream_ack body) in
      let same : Conn V → Type 0 = λ x. Quiet x c in
      if-All same c.writer_alive (λ alive. if-All same (status == status_ok) (λ fine. sent) sent)
        sent
  on_cmd-Quiet c close_cmd = (refl, refl)

  close_pending-Quiet : (m : Map ℕ) (c : Conn V) → Quiet (close_pending m c) c
  unfolding close_pending answer_open
  close_pending-Quiet [] c = (refl, refl)
  close_pending-Quiet ((id, k) ∷ m) c = close_pending-Quiet m (answer_open c k (err stream_closed))

  finish-Quiet : (c : Conn V) → Quiet (finish c) c
  unfolding finish
  finish-Quiet c = elim (Bool-cases (close_pending c.pending c).auth_response) [
    | inl waits ↦ rw waits (close_pending-Quiet c.pending c)
    | inr answered ↦ rw answered (close_pending-Quiet c.pending c)
  ]

  -- An AUTH_REQUEST frame that is accepted on the stream `id`.
  abbrev MayUseBy : Option (Validator V) → V → Result (Frame × ℕ) → ℕ → Type 0
  MayUseBy auth v (ok (f, used)) id = MayUse auth v f id
  MayUseBy auth v (err e) id = ⊥
  MayUseBy auth v panic id = ⊥

  abbrev MayUseIn : Option (Validator V) → V → Inbound → ℕ → Type 0
  MayUseIn auth v (frame bytes) id = MayUseBy auth v (Frame.decode bytes) id
  MayUseIn auth v drop_frame id = ⊥
  MayUseIn auth v close id = ⊥

  decoded-Held :
      (P : ℕ → Type 0) (u : Utf8) (auth : Option (Validator V)) (c : Conn V)
      (r : Result (Frame × ℕ))
      → Held P c
      → Held (λ id. P id ⊎ MayUseBy auth c.shared r id) (decoded u auth c r).1
  unfolding decoded
  decoded-Held P u auth c (ok (f, used)) held = dispatch-Held P u auth c f held
  decoded-Held P u auth c (err e) held = Held-weaken P _ c (λ id p. inl p) held
  decoded-Held P u auth c panic held = Held-weaken P _ c (λ id p. inl p) held

module _ {V : Type 0} (b3 : Blake3) (u : Utf8) (auth : Option (Validator V)) where
  on_inbound-Held :
      (P : ℕ → Type 0) (c : Conn V) (got : Inbound)
      → Held P c
      → Held (λ id. P id ⊎ MayUseIn auth c.shared got id) (on_inbound b3 u auth c got).0
  unfolding on_inbound handle_frame
  on_inbound-Held P c (frame bytes) held = decoded-Held P u auth c (Frame.decode bytes) held
  on_inbound-Held P c drop_frame held = Held-weaken P _ c (λ id p. inl p) held
  on_inbound-Held P c close held = Held-weaken P _ c (λ id p. inl p) held

  -- The input is a message that brings an accepted AUTH_REQUEST frame on the stream `id`.
  abbrev pub Admits : Task V → Input → ℕ → Type 0
  Admits t writer_done id = ⊥
  Admits t socket_failed id = ⊥
  Admits t (cmd command) id = ⊥
  Admits t (binary bytes) id =
      MayUseIn auth t.conn.shared (inbound b3 t.metrics bytes t.obfuscation).0 id
  Admits t (ws_ping payload room) id = ⊥
  Admits t other_message id = ⊥
  Admits t read_error id = ⊥
  Admits t tick id = ⊥

  -- One of the inputs that the loop takes is, in the state that the task has then.
  abbrev pub Admitted : Task V → List Input → ℕ → Type 0
  Admitted t [] id = ⊥
  Admitted t (i ∷ is) id =
      Admits t i id ⊎ (((turn b3 u auth t i).1 ≡ true) × Admitted (turn b3 u auth t i).0 is id)

  turn-Held :
      (P : ℕ → Type 0) (t : Task V) (i : Input)
      → Held P t.conn
      → Held (λ id. P id ⊎ Admits t i id) (turn b3 u auth t i).0.conn
  unfolding turn
  turn-Held P t writer_done held = Held-weaken P _ t.conn (λ id p. inl p) held
  turn-Held P t socket_failed held = Held-weaken P _ t.conn (λ id p. inl p) held
  turn-Held P t (cmd command) held =
      let c = (on_cmd t.conn command).0 in
      Held-weaken P _ c (λ id p. inl p) (Held-Quiet P c t.conn (on_cmd-Quiet t.conn command) held)
  turn-Held P t (binary bytes) held =
      on_inbound-Held P t.conn (inbound b3 t.metrics bytes t.obfuscation).0 held
  turn-Held P t (ws_ping payload room) held =
      if-All (λ (x : Task V). Held (λ id. P id ⊎ ⊥) x.conn) (room && t.conn.writer_alive)
        (λ e. Held-weaken P _ t.conn (λ id p. inl p) held)
        (Held-weaken P _ t.conn (λ id p. inl p) held)
  turn-Held P t other_message held = Held-weaken P _ t.conn (λ id p. inl p) held
  turn-Held P t read_error held = Held-weaken P _ t.conn (λ id p. inl p) held
  turn-Held P t tick held =
      let c = (send_frame t.conn Frame.ping).1 in
      Held-weaken P _ c (λ id p. inl p)
        (Held-Quiet P c t.conn (send_frame-Quiet t.conn Frame.ping) held)

  run-Held :
      (P : ℕ → Type 0) (t : Task V) (is : List Input)
      → Held P t.conn
      → Held (λ id. P id ⊎ Admitted t is id) (run b3 u auth t is).0.conn
  unfolding run
  run-Held P t [] held = Held-weaken P _ t.conn (λ id p. inl p) held
  run-Held P t (i ∷ is) held =
      let t' = (turn b3 u auth t i).0 in
      let now : ℕ → Type 0 = λ id. P id ⊎ Admits t i id in
      let Q : ℕ → Type 0 = λ id. P id ⊎ Admitted t (i ∷ is) id in
      let here : Held now t'.conn = turn-Held P t i held in
      elim (Bool-cases (turn b3 u auth t i).1) [
        | inl more ↦
            let same : run b3 u auth t (i ∷ is) ≡ run b3 u auth t' is = rw (more, run) refl in
            let widen : (id : ℕ) → now id ⊎ Admitted t' is id → Q id = λ id h. elim h [
              | inl (inl p) ↦ inl p
              | inl (inr a) ↦ inr (inl a)
              | inr a ↦ inr (inr (more, a))
            ] in
            subst (λ x. Held Q x.0.conn) (sym same)
              (Held-weaken (λ id. now id ⊎ Admitted t' is id) Q (run b3 u auth t' is).0.conn widen
                (run-Held now t' is here))
        | inr last ↦
            let same : (run b3 u auth t (i ∷ is)).0.conn ≡ finish t'.conn = rw (last, run) refl in
            let widen : (id : ℕ) → now id → Q id =
              λ id h. elim h [ inl p ↦ inl p | inr a ↦ inr (inl a) ] in
            subst (Held Q) (sym same) (
              Held-Quiet Q (finish t'.conn) t'.conn (finish-Quiet t'.conn)
                (Held-weaken now Q t'.conn widen here))
      ]

  -- A connection with `mux` that starts without sessions and events hands on a peer's request to open a stream only
  -- if the stream is 0, or one of the messages brought an AUTH_REQUEST frame on that stream which the validator accepted.
  pub run-vouched :
      (t : Task V) (is : List Input)
      → t.conn.sessions ≡ some []
      → t.conn.events ≡ []
      → All (Told (Admitted t is)) (run b3 u auth t is).0.conn.events
  run-vouched t is fresh quiet =
      let nobody : ℕ → Type 0 = λ id. ⊥ in
      let start : Held nobody t.conn = ([], fresh, (λ id h. absurd (cc)), rw quiet tt) in
      let c = (run b3 u auth t is).0.conn in
      let (ss, e, k, told) =
        Held-weaken (λ id. nobody id ⊎ Admitted t is id) (Admitted t is) c
          (λ id h. elim h [ inl none_yet ↦ absurd none_yet | inr a ↦ a ])
          (run-Held nobody t is start) in
      told
