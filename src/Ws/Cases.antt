-- ===== src/Ws/Cases.antt =====
-- `handle_frame` of crates/hydr-transport/src/ws.rs: what holds after each of its handlers.
use hydr.Base.{if-All, ◌≡◌, true, Option, ◌==◌}
use hydr.Base.Results.{Result, ok}
use hydr.Base.Utf8.{Utf8}
use hydr.Frame
use hydr.Frame.{
  Frame, frame_open_stream, frame_open_stream_ack, frame_stream_data, frame_stream_close,
  frame_datagram, frame_ping, frame_pong, frame_auth_request, frame_auth_response,
  frame_stream_credit,
}
use hydr.Ws.Session.{Conn, Validator, send_frame}
use hydr.Ws.Dispatch.{
  on_auth_request, on_auth_response, on_open_stream, on_open_stream_ack, on_stream_data,
  on_stream_credit, on_stream_close, on_datagram, dispatch,
}

module _ {V : Type 0} where
  pub dispatch-All {ℓ} :
      (P : Result (Unit {0}) × Conn V → Type ℓ) (u : Utf8) (auth : Option (Validator V))
      (c : Conn V) (f : Frame)
      → ((f.frame_type == frame_auth_request) ≡ true → P (on_auth_request auth c f))
      → P (ok tt, on_auth_response c f)
      → P (on_open_stream u c f)
      → P (ok tt, on_open_stream_ack u c f)
      → P (ok tt, on_stream_data c f)
      → P (ok tt, on_stream_credit c f)
      → P (ok tt, on_stream_close c f)
      → P (ok tt, on_datagram u c f)
      → P (send_frame c (Frame.new 0 frame_pong f.body))
      → P (ok tt, c)
      → P (dispatch u auth c f)
  unfolding dispatch
  dispatch-All P u auth c f request response asked ack chunk credit closed dg pong other =
      if-All P (f.frame_type == frame_auth_request) request (
        if-All P (f.frame_type == frame_auth_response) (λ e. response)
          (if-All P (f.frame_type == frame_open_stream) (λ e. asked)
            (if-All P (f.frame_type == frame_open_stream_ack) (λ e. ack)
              (if-All P (f.frame_type == frame_stream_data) (λ e. chunk)
                (if-All P (f.frame_type == frame_stream_credit) (λ e. credit)
                  (if-All P (f.frame_type == frame_stream_close) (λ e. closed)
                    (if-All P (f.frame_type == frame_datagram) (λ e. dg)
                      (if-All P (f.frame_type == frame_ping) (λ e. pong) other))))))))
