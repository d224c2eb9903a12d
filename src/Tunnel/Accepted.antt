-- ===== src/Tunnel/Accepted.antt =====
-- `AcceptedStream` of crates/hydr-transport/src/lib.rs: the answer to a stream that a peer opens.
use hydr.Base.{ℕ, List, [], ◌∷◌, ◌++◌, Bool, false, if◌then◌else◌}
use hydr.Base.Results.{Result, ok, err, panic, stream_closed}
use hydr.Address.{Address}
use hydr.Quic.Streams.{Quinn}
use hydr.Quic
use hydr.Ws.Run.{Cmd, reply_open_cmd}

module _ (q : Quinn) where
  open q use {Send}

  -- `a_read` and `a_write` are there together or gone together; the commands of a WebSocket tunnel that
  -- is gone are refused.
  pub data AcceptedInner : Type 0 where
    quic_inner : Send → AcceptedInner
    ws_inner : (id : ℕ) (pipes : Bool) (open_cmds : Bool) (cmds : List Cmd) → AcceptedInner

  pub record AcceptedStream : Type 0 where
    pub address : Address
    pub inner : AcceptedInner

  -- `ws::reply_open`
  unfoldable pub reply_open : Bool → List Cmd → ℕ → ℕ → ℕ → List ℕ → Result (Unit {0}) × List Cmd
  reply_open open_cmds cmds id status error_code message =
      if open_cmds
      then (ok tt, cmds ++ (reply_open_cmd id status error_code message ∷ []))
      else (err stream_closed, cmds)

  unfoldable pub reply_quic :
      AcceptedStream → Send → Result Send → Result (Unit {0}) × AcceptedStream
  reply_quic acc send (ok send') = (ok tt, record acc { inner = quic_inner send' })
  reply_quic acc send (err e) = (err e, acc)
  reply_quic acc send panic = (panic, acc)

  unfoldable pub reply_with_code :
      AcceptedStream → ℕ → ℕ → List ℕ → Result (Unit {0}) × AcceptedStream
  unfolding reply_quic reply_open
  reply_with_code acc status error_code message = elim acc.inner [
    | quic_inner send ↦ reply_quic acc send (Quic.ack q send status error_code message)
    | ws_inner id pipes open_cmds cmds ↦
        let (r, cmds') = reply_open open_cmds cmds id status error_code message in
        if pipes
        then (r, record acc { inner = ws_inner id false open_cmds cmds' })
        else (err stream_closed, acc)
  ]

  -- With `ERR_NONE`.
  unfoldable pub reply : AcceptedStream → ℕ → List ℕ → Result (Unit {0}) × AcceptedStream
  unfolding reply_with_code
  reply acc status message = reply_with_code acc status 0 message
