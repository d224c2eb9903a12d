-- ===== src/Tunnel.antt =====
-- crates/hydr-transport/src/lib.rs: a tunnel over either transport. What the two transports offer is a
-- parameter that this file only chooses from; the socket and its peer are the `World` that they pass on.
pub mod Accepted
use hydr.Base.{ℕ, List, Bool, Option}
use hydr.Base.Results.{Text, Result, ok, err, panic}
use hydr.Address.{Address, IpAddr}
use hydr.Message.{AuthRequest, Datagram}
use hydr.Obfuscator.{Obfuscator}

-- The functions of crates/hydr-transport/src/quic.rs and ws.rs by their results. The number at
-- `quic_connect` sets up the congestion control, and without it quinn's own is used.
pub record Transports : Type 1 where
  pub World : Type 0
  pub QuicTunnel : Type 0
  pub Connection : Type 0
  pub WsTunnel : Type 0
  pub WsHandle : Type 0
  pub Stream : Type 0
  pub connection : QuicTunnel → Connection
  pub handle : WsTunnel → WsHandle
  pub quic_connect :
      World
      → IpAddr × ℕ
      → Text
      → Bool
      → Option (List ℕ)
      → Option ℕ
      → AuthRequest
      → Result QuicTunnel × World
  pub ws_connect :
      World
      → Text
      → Bool
      → Option (List ℕ)
      → AuthRequest
      → Option Obfuscator
      → Result WsTunnel × World
  pub quic_open : World → Connection → Address → Result Stream × World
  pub ws_open : World → WsHandle → Address → Result Stream × World
  pub quic_send : World → Connection → Datagram → Result (Unit {0}) × World
  pub ws_send : World → WsHandle → Datagram → Result (Unit {0}) × World
  pub quic_recv : World → QuicTunnel → Result Datagram × World
  pub ws_recv : World → WsTunnel → Result Datagram × World
  pub quic_close : World → Connection → World
  pub ws_close : World → WsHandle → World
  pub quic_shut : World → QuicTunnel → World
  pub ws_shut : World → WsTunnel → World

module _ (T : Transports) where
  open T use {
    World, QuicTunnel, Connection, WsTunnel, WsHandle, Stream, connection, handle, quic_open,
    ws_open, quic_send, ws_send, quic_recv, ws_recv, quic_close, ws_close, quic_shut, ws_shut,
  }

  pub data Tunnel : Type 0 where
    quic : QuicTunnel → Tunnel
    ws : WsTunnel → Tunnel

  pub data TunnelHandle : Type 0 where
    quic_handle : Connection → TunnelHandle
    ws_handle : WsHandle → TunnelHandle

  unfoldable pub from_tunnel : Tunnel → TunnelHandle
  from_tunnel (quic t) = quic_handle (connection t)
  from_tunnel (ws t) = ws_handle (handle t)

  unfoldable pub open_stream : World → TunnelHandle → Address → Result Stream × World
  open_stream w (quic_handle conn) addr = quic_open w conn addr
  open_stream w (ws_handle h) addr = ws_open w h addr

  unfoldable pub send_datagram : World → TunnelHandle → Datagram → Result (Unit {0}) × World
  send_datagram w (quic_handle conn) dg = quic_send w conn dg
  send_datagram w (ws_handle h) dg = ws_send w h dg

  unfoldable pub close : World → TunnelHandle → World
  close w (quic_handle conn) = quic_close w conn
  close w (ws_handle h) = ws_close w h

  -- `Tunnel::recv_datagram`
  unfoldable pub recv_datagram : World → Tunnel → Result Datagram × World
  recv_datagram w (quic t) = quic_recv w t
  recv_datagram w (ws t) = ws_recv w t

  -- `Tunnel::close`
  unfoldable pub close_tunnel : World → Tunnel → World
  close_tunnel w (quic t) = quic_shut w t
  close_tunnel w (ws t) = ws_shut w t
