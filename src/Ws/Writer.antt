-- ===== src/Ws/Writer.antt =====
-- `writer` of crates/hydr-transport/src/ws.rs, which puts the queued messages on the socket, and what
-- the loop of the other end finds of them.
use hydr.Base.{ℕ, List, [], ◌∷◌, Bool, true, false, Option}
use hydr.Base.Blake3.{Blake3}
use hydr.Base.Utf8.{Utf8}
use hydr.Obfuscator.{Obfuscator}
use hydr.Ws.{outbound}
use hydr.Ws.Session.{Conn, Validator, OutMsg}
use hydr.Ws.Dispatch.{dispatch}
use hydr.Ws.Run.{Input, binary, other_message, keeps_going, finish}

-- The messages of the WebSocket protocol that the program sends.
pub data Message : Type 0 where
  binary_message : List ℕ → Message
  pong_message : List ℕ → Message

-- A message of the socket as the loop takes it.
unfoldable pub received : Message → Input
received (binary_message bytes) = binary bytes
received (pong_message payload) = other_message

module _ (b3 : Blake3) where
  -- Each message comes with the salt that the obfuscator draws for it, where there is one.
  unfoldable pub writer : Option Obfuscator → List (List ℕ × OutMsg) → List Message
  unfolding outbound
  writer ob [] = []
  writer ob ((salt, OutMsg.frame f) ∷ msgs) =
      let (bytes, ob') = outbound b3 f ob salt in binary_message bytes ∷ writer ob' msgs
  writer ob ((salt, OutMsg.ws_pong payload) ∷ msgs) = pong_message payload ∷ writer ob msgs

-- What those messages are to do at the other end: each frame is handled in its turn, and the first
-- that fails ends the connection.
module _ {V : Type 0} (u : Utf8) (auth : Option (Validator V)) where
  unfoldable pub handle_all : Conn V → List (List ℕ × OutMsg) → Conn V × Bool
  unfolding dispatch keeps_going finish
  handle_all c [] = (c, true)
  handle_all c ((salt, OutMsg.frame f) ∷ msgs) =
      let (r, c') = dispatch u auth c f in
      elim (keeps_going r) [ true ↦ handle_all c' msgs | false ↦ (finish c', false) ]
  handle_all c ((salt, OutMsg.ws_pong payload) ∷ msgs) = handle_all c msgs
