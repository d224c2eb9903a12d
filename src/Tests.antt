-- ===== src/Tests.antt =====
-- The theorems at concrete inputs.
mod Codec
mod Guards
mod Tunnel
mod Sockets
mod Clients
mod Settings
mod Certs
mod Streams
mod Listener
