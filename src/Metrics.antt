-- ===== src/Metrics.antt =====
-- `Metrics` of crates/hydr-core/src/metrics.rs: the process-wide counters, each an atomic u64 whose
-- `fetch_add` and `fetch_sub` wrap.
pub mod Render
pub mod Endpoint
use hydr.Base.{ℕ, ◌+◌, ◌-◌, ◌%◌, ◌^◌}

pub record Metrics : Type 0 where
  pub auth_ok : ℕ
  pub auth_bad_credentials : ℕ
  pub auth_replay : ℕ
  pub auth_unsupported : ℕ
  pub auth_rate_limited : ℕ
  pub streams_opened : ℕ
  pub datagrams_rx : ℕ
  pub datagrams_tx : ℕ
  pub udp_sessions_current : ℕ
  pub udp_sessions_created : ℕ
  pub udp_sessions_rejected : ℕ
  pub ws_datagrams_dropped : ℕ
  pub obfus_replay_dropped : ℕ
  pub obfus_invalid : ℕ
  pub ws_credit_waits : ℕ
  pub cc_window_bytes : ℕ

abbrev pub new : Metrics
new = record {
  auth_ok = 0;
  auth_bad_credentials = 0;
  auth_replay = 0;
  auth_unsupported = 0;
  auth_rate_limited = 0;
  streams_opened = 0;
  datagrams_rx = 0;
  datagrams_tx = 0;
  udp_sessions_current = 0;
  udp_sessions_created = 0;
  udp_sessions_rejected = 0;
  ws_datagrams_dropped = 0;
  obfus_replay_dropped = 0;
  obfus_invalid = 0;
  ws_credit_waits = 0;
  cc_window_bytes = 0;
}

-- `fetch_add(1)` and `fetch_sub(1)`
unfoldable pub incr : ℕ → ℕ
incr c = (c + 1) % 2 ^ 64

unfoldable pub decr : ℕ → ℕ
decr c = (c + 2 ^ 64 - 1) % 2 ^ 64
