-- ===== src/Ws/Session.antt =====
-- crates/hydr-transport/src/ws.rs: what the task `run` of a WebSocket tunnel keeps. A one-shot channel
-- is the list of what was sent on it, and whoever waits on one has a ticket. Queues are the lists of
-- what was put in them, oldest first; the task waits where a queue is full. The pipes and the tasks
-- that copy between them and the queues are left out, so a stream is what was queued for its writer.
use hydr.Base.{ℕ, List, [], ◌∷◌, ◌++◌, Bool, true, false, Option, none, some, if◌then◌else◌}
use hydr.Base.Maps.{Map}
use hydr.Base.Results.{Result, ok, err, stream_closed}
use hydr.Address.{Address}
use hydr.Frame.{Frame}
use hydr.Message.{AuthRequest, AuthResponse, Datagram}
use hydr.Ws.{StreamCredit}

pub data WsEvent : Type 0 where
  incoming : ℕ → Address → WsEvent
  datagram : Datagram → WsEvent

-- `OutMsg`
pub data OutMsg : Type 0 where
  frame : Frame → OutMsg
  ws_pong : List ℕ → OutMsg

-- The validator with the state that it shares with its owner.
abbrev pub Validator : Type 0 → Type 0
Validator V = V → AuthRequest → Result AuthResponse × V

-- `auth_response` and `server_auth_done` tell whether the sender is still there, `pending` and
-- `pending_auth` hold the tickets of those who wait, `writer_alive` whether frames are still taken.
pub record Conn (V : Type 0) : Type 0 where
  pub shared : V
  pub writer_alive : Bool
  pub frames : List OutMsg
  pub streams : Map (List (List ℕ))
  pub pending : Map ℕ
  pub credits : Map StreamCredit
  pub auth_response : Bool
  pub response_done : List (Result AuthResponse)
  pub sessions : Option (List ℕ)
  pub server_auth_done : Bool
  pub request_done : List AuthRequest
  pub pending_auth : Option (Map ℕ)
  pub session_done : List (ℕ × Result AuthResponse)
  pub open_done : List (ℕ × Result (Unit {0}))
  pub events : List WsEvent

module _ {V : Type 0} where
  -- `frame_tx.send(…).await.map_err(|_| Error::StreamClosed)`
  unfoldable pub send_frame : Conn V → Frame → Result (Unit {0}) × Conn V
  send_frame c f =
      if c.writer_alive
      then (ok tt, record c { frames = c.frames ++ (OutMsg.frame f ∷ []) })
      else (err stream_closed, c)

  unfoldable pub emit : Conn V → WsEvent → Conn V
  emit c e = record c { events = c.events ++ (e ∷ []) }

  -- The one-shot channel of a ticket of `open_stream`.
  unfoldable pub answer_open : Conn V → ℕ → Result (Unit {0}) → Conn V
  answer_open c ticket r = record c { open_done = c.open_done ++ ((ticket, r) ∷ []) }

-- What `connect` and `accept` start from.
unfoldable pub client_conn : Conn (Unit {0})
client_conn = record {
  shared = tt;
  writer_alive = true;
  frames = [];
  streams = [];
  pending = [];
  credits = [];
  auth_response = true;
  response_done = [];
  sessions = none;
  server_auth_done = false;
  request_done = [];
  pending_auth = some [];
  session_done = [];
  open_done = [];
  events = [];
}

unfoldable pub server_conn : {V : Type 0} → V → Bool → Conn V
server_conn shared mux = record {
  shared = shared;
  writer_alive = true;
  frames = [];
  streams = [];
  pending = [];
  credits = [];
  auth_response = false;
  response_done = [];
  sessions = if mux then some [] else none;
  server_auth_done = true;
  request_done = [];
  pending_auth = none;
  session_done = [];
  open_done = [];
  events = [];
}
