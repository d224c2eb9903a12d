-- ===== src/Cc/Window.antt =====
-- The window of crates/hydr-cc/src/lib.rs: its bounds, and that losses do not change it.
use hydr.Base.{ℕ, ◌*◌, ◌/◌, ◌^◌, ◌≤◌, ◌<◌, ◌≡◌, refl, arith, max, min, List, [], ◌∷◌, Bool}
use hydr.Cc.{
  BrutalController, new, on_ack, on_congestion_event, on_mtu_update, window, window_for, clamp,
  min_window_bytes, max_window_bytes,
}

-- The callbacks of quinn, with what the controller reads of their arguments.
pub data Event : Type 0 where
  ack : (rtt : ℕ) → Event
  congestion : (is_persistent : Bool) (lost_bytes : ℕ) → Event
  mtu_update : (new_mtu : ℕ) → Event

unfoldable pub on_event : BrutalController → Event → BrutalController
unfolding on_ack on_congestion_event on_mtu_update
on_event c (ack rtt) = on_ack c rtt
on_event c (congestion is_persistent lost_bytes) = on_congestion_event c is_persistent lost_bytes
on_event c (mtu_update new_mtu) = on_mtu_update c new_mtu

unfoldable pub on_events : BrutalController → List Event → BrutalController
on_events c [] = c
on_events c (e ∷ es) = on_events (on_event c e) es

-- What is left of the events without the losses.
unfoldable pub without_losses : List Event → List Event
without_losses [] = []
without_losses (ack rtt ∷ es) = ack rtt ∷ without_losses es
without_losses (congestion is_persistent lost_bytes ∷ es) = without_losses es
without_losses (mtu_update new_mtu ∷ es) = mtu_update new_mtu ∷ without_losses es

pub window_for-bounds :
    (rate_bps rtt : ℕ)
    → (min_window_bytes ≤ window_for rate_bps rtt) × (window_for rate_bps rtt ≤ max_window_bytes)
unfolding window_for clamp
window_for-bounds rate_bps rtt = ground arith

-- Between the bounds, the window is what the rate moves in one round trip, if the product of both,
-- in bytes, is below 2^64.
pub window_for-product :
    (rate_bps rtt : ℕ)
    → min_window_bytes ≤ rate_bps / 8 * rtt / 1000000000
    → rate_bps / 8 * rtt / 1000000000 < 2 ^ 64
    → window_for rate_bps rtt ≡ min (rate_bps / 8 * rtt / 1000000000) max_window_bytes
unfolding window_for clamp
window_for-product rate_bps rtt low high = ground (arith, low, high)

on_events-bounds :
    (es : List Event) (c : BrutalController)
    → (min_window_bytes ≤ c.window_bytes) × (c.window_bytes ≤ max_window_bytes)
    → let c' = on_events c es in
      (min_window_bytes ≤ c'.window_bytes)
      × (c'.window_bytes ≤ max_window_bytes)
      × (c'.rate_bps ≡ c.rate_bps)
unfolding on_events on_event on_ack on_mtu_update on_congestion_event
on_events-bounds [] c (low, high) = (low, high, refl)
on_events-bounds (ack rtt ∷ es) c b =
    on_events-bounds es (on_ack c rtt) (window_for-bounds c.rate_bps rtt)
on_events-bounds (congestion is_persistent lost_bytes ∷ es) c b = on_events-bounds es c b
on_events-bounds (mtu_update new_mtu ∷ es) c b = on_events-bounds es (on_mtu_update c new_mtu) b

-- After any events, the stored window lies between its bounds, the rate is the one that was
-- configured, and the window that quinn is told is no less than two packets.
pub window-bounds :
    (rate_bps mtu : ℕ) (es : List Event)
    → let c = on_events (new rate_bps mtu) es in
      (min_window_bytes ≤ window c)
      × (c.mtu * 2 ≤ window c)
      × (window c ≤ max max_window_bytes (c.mtu * 2))
      × (c.rate_bps ≡ rate_bps)
unfolding new window
window-bounds rate_bps mtu es =
    let (low, high, rate) =
      on_events-bounds es (new rate_bps mtu) (window_for-bounds rate_bps (50 * 1000000)) in
    (omega arith, omega arith, omega arith, rate)

-- Losses make no difference, however many there are and wherever they come in.
pub on_events-losses :
    (es : List Event) (c : BrutalController) → on_events c es ≡ on_events c (without_losses es)
unfolding on_events without_losses on_event on_congestion_event
on_events-losses [] c = refl
on_events-losses (ack rtt ∷ es) c = on_events-losses es (on_ack c rtt)
on_events-losses (congestion is_persistent lost_bytes ∷ es) c = on_events-losses es c
on_events-losses (mtu_update new_mtu ∷ es) c = on_events-losses es (on_mtu_update c new_mtu)
