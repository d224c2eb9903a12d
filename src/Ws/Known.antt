-- ===== src/Ws/Known.antt =====
-- crates/hydr-transport/src/ws.rs: what becomes of those who wait for a stream, per frame and command.
use hydr.Base.{ℕ, ◌+◌, ◌≡◌, refl, ap, ◌∙◌, arith, List, [], ◌∷◌, Option}
use hydr.Base.{◌==◌, Bool-cases, Option-cases, inl, inr}
use hydr.Base.Maps.{Map, get, put, remove_entry}
use hydr.Base.Results.{Result, ok, err, panic, stream_closed}
use hydr.Base.Utf8.{Utf8}
use hydr.Frame
use hydr.Frame.{Frame, frame_pong, frame_open_stream, frame_open_stream_ack}
use hydr.Message.{
  encode_open_stream, encode_open_stream_ack, OpenStreamAck, status_ok, status_ok,
  decode_open_stream_ack,
}
use hydr.Ws.Session.{Conn, Validator, send_frame, answer_open}
use hydr.Ws.Dispatch.{
  start_stream, opened, on_open_stream_ack, on_stream_close, dispatch, decoded, handle_frame,
}
use hydr.Base.{if-All}
use hydr.Ws.Cases.{dispatch-All}
use hydr.Ws.Run.{
  Cmd, send_cmd, open_cmd, reply_open_cmd, close_cmd, cmd, await_ack, on_cmd, close_pending, finish,
}
use hydr.Ws.Tickets.{
  one_if, answers_of, waits_of, asks_of, answers_of_snoc, waits_of-remove_entry,
  waits_of-remove_entry-none, known, Alike, known-Alike, send_frame-Alike, on_auth_request-Alike,
  on_auth_response-Alike, on_open_stream-Alike, on_stream_data-Alike, on_stream_credit-Alike,
  on_datagram-Alike,
}

module _ {V : Type 0} where
  known-answer_open :
      (ticket k : ℕ) (r : Result (Unit {0})) (c : Conn V)
      → known ticket (answer_open c k r) ≡ one_if (k == ticket) + known ticket c
  unfolding known answer_open
  known-answer_open ticket k r c = omega (arith, answers_of_snoc ticket k r c.open_done)

  start_stream-Alike : (c : Conn V) (id : ℕ) → Alike (start_stream c id) c
  unfolding start_stream
  start_stream-Alike c id = (refl, refl)

  known-opened :
      (ticket : ℕ) (u : Utf8) (c : Conn V) (id k : ℕ) (r : Result (OpenStreamAck × ℕ))
      → known ticket (opened u c id k r) ≡ one_if (k == ticket) + known ticket c
  unfolding opened
  known-opened ticket u c id k (ok (ack, used)) = elim (Bool-cases (ack.status == status_ok)) [
    | inl fine ↦ rw fine (
        known-answer_open ticket k _ (start_stream c id)
        ∙ ap (λ n. one_if (k == ticket) + n)
            (known-Alike ticket (start_stream c id) c (start_stream-Alike c id)))
    | inr refused ↦ rw refused (known-answer_open ticket k _ c)
  ]
  known-opened ticket u c id k (err e) = known-answer_open ticket k (err e) c
  known-opened ticket u c id k panic = known-answer_open ticket k panic c

  known-on_open_stream_ack :
      (ticket : ℕ) (u : Utf8) (c : Conn V) (f : Frame)
      → known ticket (on_open_stream_ack u c f) ≡ known ticket c
  unfolding known on_open_stream_ack
  known-on_open_stream_ack ticket u c f = elim (Option-cases (get f.stream_id c.pending)) [
    | inl missing ↦ rw (missing, on_open_stream_ack) refl
    | inr (k, found) ↦
        let waiting = waits_of-remove_entry ticket f.stream_id k c.pending found in
        rw (found, on_open_stream_ack)
          (omega (
            arith,
            waiting,
            known-opened ticket u (record c { pending = remove_entry f.stream_id c.pending })
                f.stream_id k (decode_open_stream_ack f.body),
          ))
  ]

  on_stream_close-Alike : (c : Conn V) (f : Frame) → Alike (on_stream_close c f) c
  unfolding on_stream_close
  on_stream_close-Alike c f = (refl, refl)

  known-dispatch :
      (ticket : ℕ) (u : Utf8) (auth : Option (Validator V)) (c : Conn V) (f : Frame)
      → known ticket (dispatch u auth c f).1 ≡ known ticket c
  known-dispatch ticket u auth c f =
      let alike = λ (c' : Conn V). known-Alike ticket c' c in
      dispatch-All (λ x. known ticket x.1 ≡ known ticket c) u auth c f
        (λ is_request. alike _ (on_auth_request-Alike auth c f))
        (alike _ (on_auth_response-Alike c f)) (alike _ (on_open_stream-Alike u c f))
        (known-on_open_stream_ack ticket u c f) (alike _ (on_stream_data-Alike c f))
        (alike _ (on_stream_credit-Alike c f)) (alike _ (on_stream_close-Alike c f))
        (alike _ (on_datagram-Alike u c f))
        (alike _ (send_frame-Alike c (Frame.new 0 frame_pong f.body))) refl

  known-decoded :
      (ticket : ℕ) (u : Utf8) (auth : Option (Validator V)) (c : Conn V) (r : Result (Frame × ℕ))
      → known ticket (decoded u auth c r).1 ≡ known ticket c
  unfolding decoded
  known-decoded ticket u auth c (ok (f, used)) = known-dispatch ticket u auth c f
  known-decoded ticket u auth c (err e) = refl
  known-decoded ticket u auth c panic = refl

  pub known-handle_frame :
      (ticket : ℕ) (u : Utf8) (auth : Option (Validator V)) (c : Conn V) (bytes : List ℕ)
      → known ticket (handle_frame u auth c bytes).1 ≡ known ticket c
  unfolding handle_frame
  known-handle_frame ticket u auth c bytes = known-decoded ticket u auth c (Frame.decode bytes)

  known-await_ack :
      (ticket : ℕ) (c : Conn V) (id k : ℕ)
      → known ticket (await_ack c id k) ≡ one_if (k == ticket) + known ticket c
  unfolding await_ack known waits_of put answer_open
  known-await_ack ticket c id k = elim (Option-cases (get id c.pending)) [
    | inl missing ↦
        rw (missing, await_ack)
          (omega (arith, waits_of-remove_entry-none ticket id c.pending missing))
    | inr (old, found) ↦
        let closed : Result (Unit {0}) = err stream_closed in
        rw (found, await_ack)
          (omega (
            arith,
            waits_of-remove_entry ticket id old c.pending found,
            answers_of_snoc ticket old closed c.open_done,
          ))
  ]

  pub known-on_cmd :
      (ticket : ℕ) (c : Conn V) (command : Cmd)
      → known ticket (on_cmd c command).0 ≡ asks_of ticket (cmd command ∷ []) + known ticket c
  unfolding on_cmd asks_of
  known-on_cmd ticket c (send_cmd f) =
      omega (arith, known-Alike ticket (send_frame c f).1 c (send_frame-Alike c f))
  known-on_cmd ticket c (open_cmd id addr k) =
      let f = Frame.new id frame_open_stream (encode_open_stream [] (record { address = addr })) in
      let sent = known-Alike ticket (send_frame c f).1 c (send_frame-Alike c f) in
      if-All (λ (x : Conn V). known ticket x ≡ one_if (k == ticket) + 0 + known ticket c)
        c.writer_alive
        (λ alive. omega (arith, sent, known-await_ack ticket (send_frame c f).1 id k))
        (omega (arith, sent, known-answer_open ticket k (err stream_closed) (send_frame c f).1))
  known-on_cmd ticket c (reply_open_cmd id status error_code message) =
      let body =
        encode_open_stream_ack []
          (record { status = status; error_code = error_code; message = message }) in
      let f = Frame.new id frame_open_stream_ack body in
      let sent = known-Alike ticket (send_frame c f).1 c (send_frame-Alike c f) in
      let started =
        known-Alike ticket (start_stream (send_frame c f).1 id) (send_frame c f).1
          (start_stream-Alike (send_frame c f).1 id) in
      let same : Conn V → Type 0 = λ x. known ticket x ≡ 0 + known ticket c in
      if-All same c.writer_alive
        (λ alive.
          if-All same (status == status_ok) (λ fine. omega (arith, started, sent))
            (omega (arith, sent)))
        (omega (arith, sent))
  known-on_cmd ticket c close_cmd = omega arith

  answers_of-close_pending :
      (ticket : ℕ) (m : Map ℕ) (c : Conn V)
      → answers_of ticket (close_pending m c).open_done
        ≡ waits_of ticket m + answers_of ticket c.open_done
  unfolding close_pending waits_of answer_open
  answers_of-close_pending ticket [] c = omega arith
  answers_of-close_pending ticket ((id, k) ∷ m) c =
      let closed : Result (Unit {0}) = err stream_closed in
      omega (
        arith,
        answers_of-close_pending ticket m (answer_open c k closed),
        answers_of_snoc ticket k closed c.open_done,
      )

  pub answers_of-finish :
      (ticket : ℕ) (c : Conn V) → answers_of ticket (finish c).open_done ≡ known ticket c
  unfolding finish known
  answers_of-finish ticket c = elim (Bool-cases (close_pending c.pending c).auth_response) [
    | inl waits ↦ rw waits (omega (arith, answers_of-close_pending ticket c.pending c))
    | inr answered ↦ rw answered (omega (arith, answers_of-close_pending ticket c.pending c))
  ]
