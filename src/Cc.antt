-- ===== src/Cc.antt =====
-- crates/hydr-cc/src/lib.rs: the congestion controller with a fixed rate. A round-trip time is a number
-- of nanoseconds. quinn's `RttEstimator`, the instants and the byte counts that the callbacks do not
-- read are left out, and so is the copy of the window in the metrics; `transport_config` sets up quinn.
pub mod Window
use hydr.Base.{ℕ, ◌+◌, ◌-◌, ◌*◌, ◌/◌, ◌%◌, ◌^◌, max, Bool, true, false}
use hydr.Base.{ltb, if◌then◌else◌}

abbrev pub min_window_bytes : ℕ
min_window_bytes = 2 * 1200

abbrev pub max_window_bytes : ℕ
max_window_bytes = 64 * 1024 * 1024

-- `Ord::clamp`
unfoldable pub clamp : ℕ → ℕ → ℕ → ℕ
clamp w low high = if ltb w low then low else if ltb high w then high else w

-- `as u64` drops the bits above the 64th.
unfoldable pub window_for : ℕ → ℕ → ℕ
window_for rate_bps rtt =
    let bytes_per_sec = rate_bps / 8 in
    let w = (bytes_per_sec * rtt / 1000000000) % 2 ^ 64 in clamp w min_window_bytes max_window_bytes

pub record BrutalController : Type 0 where
  pub rate_bps : ℕ
  pub window_bytes : ℕ
  pub mtu : ℕ

-- `Duration::from_millis(50)`
unfoldable pub new : ℕ → ℕ → BrutalController
new rate_bps mtu = record {
  rate_bps = rate_bps;
  window_bytes = window_for rate_bps (50 * 1000000);
  mtu = mtu;
}

unfoldable pub on_ack : BrutalController → ℕ → BrutalController
on_ack c rtt = record c { window_bytes = window_for c.rate_bps rtt }

-- `on_congestion_event`, with the lost bytes.
unfoldable pub on_congestion_event : BrutalController → Bool → ℕ → BrutalController
on_congestion_event c is_persistent lost_bytes = c

unfoldable pub on_mtu_update : BrutalController → ℕ → BrutalController
on_mtu_update c new_mtu = record c { mtu = new_mtu }

unfoldable pub window : BrutalController → ℕ
window c = max c.window_bytes (c.mtu * 2)

unfoldable pub initial_window : BrutalController → ℕ
initial_window c = c.window_bytes
