-- ===== src/Ws/Quiet.antt =====
-- The handlers of `handle_frame` in crates/hydr-transport/src/ws.rs that neither admit a session nor hand
-- anything on.
use hydr.Base.{ℕ, ◌≡◌, refl, arith, inl, inr}
use hydr.Base.{◌==◌, Option-cases}
use hydr.Base.Maps.{get, remove_entry}
use hydr.Base.Results.{Result, ok, err, panic}
use hydr.Base.Sets.{nat_eq}
use hydr.Base.Utf8.{Utf8}
use hydr.Frame.{Frame}
use hydr.Message.{AuthRequest, OpenStreamAck, decode_open_stream_ack}
use hydr.Varint.{decode_varint}
use hydr.Base.{if-All}
use hydr.Ws.Session.{Conn, send_frame, answer_open}
use hydr.Ws.Dispatch.{
  deliver_request, on_auth_response, answer_session, opened, start_stream, on_open_stream_ack,
  on_stream_data, grant_credit, on_stream_credit, on_stream_close,
}

module _ {V : Type 0} where
  -- Where neither the sessions nor the events change.
  abbrev pub Quiet : Conn V → Conn V → Type 0
  Quiet c' c = (c'.sessions ≡ c.sessions) × (c'.events ≡ c.events)

  pub send_frame-Quiet : (c : Conn V) (f : Frame) → Quiet (send_frame c f).1 c
  unfolding send_frame
  send_frame-Quiet c f = ground arith

  pub deliver_request-Quiet : (c : Conn V) (req : AuthRequest) → Quiet (deliver_request c req) c
  unfolding deliver_request
  deliver_request-Quiet c req = ground arith

  pub on_auth_response-Quiet : (c : Conn V) (f : Frame) → Quiet (on_auth_response c f) c
  unfolding on_auth_response answer_session
  on_auth_response-Quiet c f = ground arith

  opened-Quiet :
      (u : Utf8) (c : Conn V) (id ticket : ℕ) (r : Result (OpenStreamAck × ℕ))
      → Quiet (opened u c id ticket r) c
  unfolding opened start_stream answer_open
  opened-Quiet u c id ticket (ok (ack, used)) = ground arith
  opened-Quiet u c id ticket (err e) = (refl, refl)
  opened-Quiet u c id ticket panic = (refl, refl)

  pub on_open_stream_ack-Quiet :
      (u : Utf8) (c : Conn V) (f : Frame) → Quiet (on_open_stream_ack u c f) c
  unfolding on_open_stream_ack
  on_open_stream_ack-Quiet u c f = elim (Option-cases (get f.stream_id c.pending)) [
    | inl missing ↦ rw (missing, on_open_stream_ack) (refl, refl)
    | inr (k, found) ↦
        rw (found, on_open_stream_ack)
          (opened-Quiet u (record c { pending = remove_entry f.stream_id c.pending }) f.stream_id k
            (decode_open_stream_ack f.body))
  ]

  pub on_stream_data-Quiet : (c : Conn V) (f : Frame) → Quiet (on_stream_data c f) c
  unfolding on_stream_data
  on_stream_data-Quiet c f = ground arith

  grant_credit-Quiet : (c : Conn V) (id : ℕ) (r : Result (ℕ × ℕ)) → Quiet (grant_credit c id r) c
  unfolding grant_credit
  grant_credit-Quiet c id (ok (amt, used)) = ground arith
  grant_credit-Quiet c id (err e) = (refl, refl)
  grant_credit-Quiet c id panic = (refl, refl)

  pub on_stream_credit-Quiet : (c : Conn V) (f : Frame) → Quiet (on_stream_credit c f) c
  unfolding on_stream_credit
  on_stream_credit-Quiet c f =
      if-All (λ (x : Conn V). Quiet x c) (f.stream_id == 0) (λ e. (refl, refl))
        (grant_credit-Quiet c f.stream_id (decode_varint f.body))

  pub on_stream_close-Quiet : (c : Conn V) (f : Frame) → Quiet (on_stream_close c f) c
  unfolding on_stream_close
  on_stream_close-Quiet c f = (refl, refl)
