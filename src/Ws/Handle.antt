-- ===== src/Ws/Handle.antt =====
-- `WsHandle` and `WsTunnel` of crates/hydr-transport/src/ws.rs: what their methods send to the loop, and
-- what `connect` and `accept` make of its answers. A queue is full, has room or is closed.
use hydr.Base.{ℕ, ◌+◌, ◌%◌, ◌^◌, List, [], ◌∷◌, Bool, true, Option, none, some, ◌==◌, if◌then◌else◌}
use hydr.Base.Maps.{put}
use hydr.Base.Results.{Text, Result, ok, err, panic, message, stream_closed}
use hydr.Base.Sets.{list_beq, nat_eq}
use hydr.Base.Utf8.{Utf8}
use hydr.Address.{Address}
use hydr.Frame
use hydr.Frame.{Frame, frame_datagram, frame_auth_request, frame_stream_close}
use hydr.Message.{
  AuthRequest, AuthResponse, Datagram, encode_auth_request, encode_datagram, status_ok,
}
use hydr.Metrics.{Metrics, incr}
use hydr.Ws.Session.{Conn, WsEvent, incoming, datagram}
use hydr.Ws.Run.{Cmd, send_cmd, open_cmd, close_cmd}

pub data Room : Type 0 where
  room : Room
  full : Room
  closed : Room

-- `open_stream`: the counter and the command; the ticket is the one-shot channel.
unfoldable pub open_stream : ℕ → Address → ℕ → ℕ × Cmd
open_stream next_stream_id addr ticket =
    let next = (next_stream_id + 1) % 2 ^ 64 in (next, open_cmd (next_stream_id + 1) addr ticket)

-- `open_stream_with_id` and `open_stream_as`
unfoldable pub open_stream_with_id : ℕ → Address → ℕ → Cmd
open_stream_with_id id addr ticket = open_cmd id addr ticket

-- `send_datagram`, the command that is queued, if one is, and the counter of dropped datagrams.
unfoldable pub send_datagram :
    Metrics → Datagram → Room → Result (Unit {0}) × (Option Cmd × Metrics)
send_datagram m dg room =
    (ok tt, (some (send_cmd (Frame.new 0 frame_datagram (encode_datagram [] dg))), m))
send_datagram m dg full =
    (ok tt, (none, record m { ws_datagrams_dropped = incr m.ws_datagrams_dropped }))
send_datagram m dg closed = (err stream_closed, (none, m))

-- `WsHandle::close`
unfoldable pub close : Room → Result (Unit {0}) × Option Cmd
close room = (ok tt, some close_cmd)
close full = (err stream_closed, none)
close closed = (err stream_closed, none)

-- `WsTunnel::close` sends a frame.
abbrev pub close_tunnel : Frame
close_tunnel = Frame.new 0 frame_stream_close []

module _ {V : Type 0} where
  -- `authenticate`: the ticket is put among those that wait, and the request is sent.
  unfoldable pub authenticate : Conn V → ℕ → AuthRequest → ℕ → Conn V × Cmd
  authenticate c session_id auth ticket = (
    record c {
      pending_auth = elim c.pending_auth [
        | none ↦ none
        | some waiting ↦ some (put session_id ticket waiting)
      ];
    },
    send_cmd (Frame.new session_id frame_auth_request (encode_auth_request [] auth)),
  )

-- `accept_stream` and `recv_datagram`, on the events that the loop emits before it ends.
unfoldable pub accept_stream : List WsEvent → Result (ℕ × Address) × List WsEvent
accept_stream [] = (err stream_closed, [])
accept_stream (incoming id addr ∷ events) = (ok (id, addr), events)
accept_stream (datagram dg ∷ events) = accept_stream events

unfoldable pub recv_datagram : List WsEvent → Result Datagram × List WsEvent
recv_datagram [] = (err stream_closed, [])
recv_datagram (incoming id addr ∷ events) = recv_datagram events
recv_datagram (datagram dg ∷ events) = (ok dg, events)

-- The first frame of `connect_with_tls`, and what follows the response.
abbrev pub first_frame : AuthRequest → Frame
first_frame auth = Frame.new 0 frame_auth_request (encode_auth_request [] auth)

unfoldable pub connected : Utf8 → Result AuthResponse → Result (Unit {0})
connected u (ok resp) =
    if resp.status == status_ok then ok tt else err (message (u.from_utf8_lossy resp.message))
connected u (err e) = err e
connected u panic = panic

-- The callback of `accept_with_obfuscation` on the path of the request.
unfoldable pub path_allowed : Text → Text → Bool
path_allowed [] got = true
path_allowed (c ∷ path) got = list_beq got (c ∷ path)
