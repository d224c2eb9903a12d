-- ===== src/Ws/Safety.antt =====
-- `handle_frame` of crates/hydr-transport/src/ws.rs on whatever bytes a peer sends.
use hydr.Base.{ℕ, ◌≢◌, List, Option, none, some, All, if-All}
use hydr.Base.Results.{Result, ok, err, panic, Returns}
use hydr.Base.Utf8.{Utf8}
use hydr.Frame
use hydr.Frame.{Frame}
use hydr.Frame.Safety.{decode-Returns_frame}
use hydr.Frame.Safety as FrameSafety
use hydr.Message.{
  decode_auth_request, decode_auth_response, decode_open_stream, decode_open_stream_ack,
  decode_datagram,
}
use hydr.Message.Safety.{
  Within, auth_request-Returns, auth_response-Returns, open_stream-Returns, open_stream_ack-Returns,
  datagram-Returns,
}
use hydr.Varint.{decode_varint}
use hydr.Varint.Bytes.{IsByte}
use hydr.Varint.Decode.{Decoded, decode_varint-Returns}
use hydr.Ws.Cases.{dispatch-All}
use hydr.Ws.Session.{Conn, Validator, send_frame}
use hydr.Ws.Dispatch.{
  blocked, on_auth_request, validated, on_open_stream, dispatch, decoded, handle_frame,
}

-- Every reading of the body that the handlers may make stays within it or reports an error.
abbrev pub Readable : Utf8 → Frame × ℕ → Type 0
Readable u (f, used) =
    Returns (Within f.body) (decode_auth_request f.body)
    × Returns (Within f.body) (decode_auth_response f.body)
    × Returns (Within f.body) (decode_open_stream u f.body)
    × Returns (Within f.body) (decode_open_stream_ack f.body)
    × Returns (Within f.body) (decode_datagram u f.body)
    × Returns (Decoded f.body) (decode_varint f.body)

Readable-bytes : (u : Utf8) (f : Frame) (used : ℕ) → All IsByte f.body → Readable u (f, used)
Readable-bytes u f used h = (
  auth_request-Returns f.body h,
  auth_response-Returns f.body h,
  open_stream-Returns u f.body h,
  open_stream_ack-Returns f.body h,
  datagram-Returns u f.body h,
  decode_varint-Returns f.body h,
)

Returns-weaken :
    {A : Type 0} (P Q : A → Type 0) (m : Result A)
    → ((a : A) → P a → Q a)
    → Returns P m
    → Returns Q m
Returns-weaken P Q (ok a) k h = k a h
Returns-weaken P Q (err e) k h = tt
Returns-weaken P Q panic k h = h

-- A result that is no panic.
abbrev Calm {ℓ} : {A : Type ℓ} → Result A → Type 0
Calm (ok a) = Unit
Calm (err e) = Unit
Calm panic = ⊥

Calm-ne-panic {ℓ} : {A : Type ℓ} (r : Result A) → Calm r → r ≢ panic
Calm-ne-panic (ok a) h = λ p. cc
Calm-ne-panic (err e) h = λ p. cc
Calm-ne-panic panic h = absurd h

module _ {V : Type 0} (u : Utf8) (auth : Option (Validator V)) where
  send_frame-Calm : (c : Conn V) (f : Frame) → Calm (send_frame c f).0
  unfolding send_frame
  send_frame-Calm c f =
      if-All (λ (x : Result (Unit {0}) × Conn V). Calm x.0) c.writer_alive (λ e. tt) tt

  on_auth_request-Calm :
      (auth : Option (Validator V)) (c : Conn V) (f : Frame) → Calm (on_auth_request auth c f).0
  unfolding on_auth_request
  on_auth_request-Calm none c f = tt
  on_auth_request-Calm (some validate) c f =
      send_frame-Calm (validated validate c f.stream_id (decode_auth_request f.body)).1 _

  on_open_stream-Calm : (c : Conn V) (f : Frame) → Calm (on_open_stream u c f).0
  unfolding on_open_stream
  on_open_stream-Calm c f =
      if-All (λ (x : Result (Unit {0}) × Conn V). Calm x.0) (blocked c.sessions f.stream_id)
        (λ e. send_frame-Calm c _) tt

  dispatch-Calm : (c : Conn V) (f : Frame) → Calm (dispatch u auth c f).0
  dispatch-Calm c f =
      dispatch-All (λ x. Calm x.0) u auth c f (λ e. on_auth_request-Calm auth c f) tt
        (on_open_stream-Calm c f) tt tt tt tt tt (send_frame-Calm c _) tt

  decoded-Calm : (c : Conn V) (r : Result (Frame × ℕ)) → Calm r → Calm (decoded u auth c r).0
  unfolding decoded
  decoded-Calm c (ok (f, used)) h = dispatch-Calm c f
  decoded-Calm c (err e) h = tt
  decoded-Calm c panic h = h

  Returns-Calm : (P : Frame × ℕ → Type 0) (r : Result (Frame × ℕ)) → Returns P r → Calm r
  Returns-Calm P (ok a) h = tt
  Returns-Calm P (err e) h = tt
  Returns-Calm P panic h = h

  -- Whatever bytes arrive, and in every state, a frame is handled without a panic: its header is read or refused,
  -- and so is each body that a handler may look for in it.
  pub handle_frame-ne-panic :
      (c : Conn V) (bytes : List ℕ)
      → All IsByte bytes
      → ((handle_frame u auth c bytes).0 ≢ panic) × Returns (Readable u) (Frame.decode bytes)
  unfolding handle_frame
  handle_frame-ne-panic c bytes h =
      let whole = decode-Returns_frame bytes h in
      (
        Calm-ne-panic _
            (decoded-Calm c (Frame.decode bytes) (Returns-Calm _ (Frame.decode bytes) whole)),
        Returns-weaken (FrameSafety.Reads bytes) (Readable u) (Frame.decode bytes)
            (λ p good. Readable-bytes u p.0 p.1 good.0.bytes) whole,
      )
