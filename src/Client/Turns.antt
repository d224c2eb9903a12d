-- ===== src/Client/Turns.antt =====
-- `reconnect`, `reconnect_sync` and `serve_datagrams` of crates/hydr-client/src/lib.rs, where tasks come in
-- between their steps. A step is what one lock guards, or one call of the transport. `reconnect_lock` lets one task
-- at a time reconnect after a failed attempt to open a stream; `serve_datagrams` reconnects without it.
use hydr.Base.{ℕ, List, [], ◌∷◌, ◌==◌, if◌then◌else◌}
use hydr.Base.Blake3.{Blake3}
use hydr.Base.Results.{Result, ok, err, panic}
use hydr.Address.{Address}
use hydr.Message.{Datagram}
use hydr.Tunnel.{Transports}
use hydr.Tunnel
use hydr.Client.{State, connect_tunnel, put_tunnel, put_handle, count_gen, open_with}

-- The tasks that reconnect: the one that holds `reconnect_lock`, and the one that serves datagrams.
pub data Task : Type 0 where
  opener : Task
  server : Task

module _ (b3 : Blake3) (T : Transports) where
  open T use {World}

  -- How far a task is in `reconnect`; `replaced` is between its two locks.
  pub data Phase : Type 0 where
    outside : Phase
    connecting : Phase
    connected : Tunnel.Tunnel T → Phase
    replaced : Tunnel.TunnelHandle T → Phase
    published : Phase

  -- The client, how far both tasks are, and which of them was the last to write the tunnel and the handle.
  pub record Race : Type 0 where
    pub state : State b3 T
    pub opening : Phase
    pub serving : Phase
    pub tunnel_by : Task
    pub handle_by : Task

  abbrev pub phase_of : Task → Race → Phase
  phase_of opener s = s.opening
  phase_of server s = s.serving

  abbrev pub set_phase : Task → Phase → Race → Race
  set_phase opener p s = record s { opening = p }
  set_phase server p s = record s { serving = p }

  -- The client after its first connection.
  abbrev pub started : State b3 T → Race
  started st = record {
    state = st;
    opening = outside;
    serving = outside;
    tunnel_by = opener;
    handle_by = opener;
  }

  unfoldable pub after_connect : Task → Race → Result (Tunnel.Tunnel T) × World → Race
  after_connect k s (ok t, w) = set_phase k (connected t) (record s { state = (s.state.0, w) })
  after_connect k s (err e, w) = set_phase k outside (record s { state = (s.state.0, w) })
  after_connect k s (panic, w) = set_phase k outside (record s { state = (s.state.0, w) })

  -- The next step of `reconnect`.
  unfoldable pub advance : List ℕ → Task → Phase → Race → Race
  unfolding after_connect
  advance nonce k outside s = s
  advance nonce k connecting s =
      after_connect k s (connect_tunnel b3 T s.state.0.config nonce s.state.1)
  advance nonce k (connected t) s =
      set_phase k (replaced (Tunnel.from_tunnel T t))
        (record s { state = (put_tunnel b3 T t s.state.0, s.state.1); tunnel_by = k })
  advance nonce k (replaced h) s =
      set_phase k published
        (record s { state = (put_handle b3 T h s.state.0, s.state.1); handle_by = k })
  advance nonce k published s =
      set_phase k outside (record s { state = (count_gen b3 T s.state.0, s.state.1) })

  -- `reconnect_sync` once the task has the lock, which is free: `seen` is the generation before.
  unfoldable pub enter : ℕ → Phase → Race → Race
  enter seen outside s =
      if s.state.0.tunnel_gen == seen then record s { opening = connecting } else s
  enter seen connecting s = s
  enter seen (connected t) s = s
  enter seen (replaced h) s = s
  enter seen published s = s

  unfoldable pub received : Race → Result Datagram × World → Race
  received s (ok dg, w) = record s { state = (s.state.0, w) }
  received s (err e, w) = record s { state = (s.state.0, w); serving = connecting }
  received s (panic, w) = record s { state = (s.state.0, w) }

  -- `serve_datagrams` at the start of a round.
  unfoldable pub receive : Phase → Race → Race
  unfolding received
  receive outside s = received s (Tunnel.recv_datagram T s.state.1 s.state.0.tunnel)
  receive connecting s = s
  receive (connected t) s = s
  receive (replaced h) s = s
  receive published s = s

  -- What a task does when it is its turn: it opens a stream with a handle that it read at some time, gets the lock,
  -- receives a datagram, or makes its next step of `reconnect`.
  pub data Turn : Type 0 where
    opens : Tunnel.TunnelHandle T → Address → Turn
    enters : (seen : ℕ) → Turn
    receives : Turn
    advances : Task → (nonce : List ℕ) → Turn

  unfoldable pub turn : Race → Turn → Race
  unfolding advance enter receive
  turn s (opens h addr) = record s { state = (open_with b3 T h addr s.state).1 }
  turn s (enters seen) = enter seen s.opening s
  turn s receives = receive s.serving s
  turn s (advances k nonce) = advance nonce k (phase_of k s) s

  unfoldable pub run : Race → List Turn → Race
  unfolding turn
  run s [] = s
  run s (t ∷ ts) = run (turn s t) ts
