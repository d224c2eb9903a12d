-- ===== src/Ws.antt =====
-- crates/hydr-transport/src/ws.rs: what a frame becomes on the socket, and the flow control of a
-- stream. Waiting on the window is the test that it waits for; a `Notify` only wakes the waiter. The
-- task that owns the socket is in Run, and its handling of frames in Dispatch.
pub mod Credit
pub mod Session
pub mod Dispatch
pub mod Run
pub mod Cases
pub mod Tickets
pub mod Known
pub mod Answers
pub mod Quiet
pub mod Mux
pub mod Vouched
pub mod Writer
pub mod Pump
pub mod HalfClosed
pub mod Carried
pub mod Arrival
pub mod Delivery
pub mod Handle
pub mod Login
pub mod Closing
pub mod Safety
use hydr.Base.{
  ℕ, ◌+◌, ◌-◌, ◌*◌, ◌/◌, List, [], ◌∷◌, Bool, true, false, Option, none, some, ltb, leb,
  if◌then◌else◌,
}
use hydr.Base.Blake3.{Blake3}
use hydr.Frame.{Frame, frame_stream_credit}
use hydr.Frame
use hydr.Metrics.{Metrics}
use hydr.Obfuscator.{Obfuscator, DecryptOutcome, encrypt, decrypt_outcome}
use hydr.Varint.{encode_varint}

abbrev pub recv_window : ℕ
recv_window = 512 * 1024

abbrev pub credit_batch : ℕ
credit_batch = recv_window / 2

-- The buffer of `pump_stream`.
abbrev pub chunk_len : ℕ
chunk_len = 32 * 1024

-- `StreamCredit`, a u64 whose wrap-around lies far above the window and is left out.
pub record StreamCredit : Type 0 where
  pub outstanding : ℕ

abbrev pub new_credit : StreamCredit
new_credit = record { outstanding = 0 }

-- What `wait_window` waits for.
unfoldable pub window_open : StreamCredit → Bool
window_open c = ltb c.outstanding recv_window

unfoldable pub sent : StreamCredit → ℕ → StreamCredit
sent c n = record { outstanding = c.outstanding + n }

unfoldable pub grant : StreamCredit → ℕ → StreamCredit
grant c n = record { outstanding = c.outstanding - n }

-- `CreditReader`, without the pipe that it reads.
pub record CreditReader : Type 0 where
  pub id : ℕ
  pub pending : ℕ

abbrev pub new_reader : ℕ → CreditReader
new_reader id = record { id = id; pending = 0 }

-- `poll_read` once the pipe gave `n` bytes; `accepted` tells whether the queue has room. The second
-- component is the amount of the credit frame that was queued.
unfoldable pub poll_read : CreditReader → ℕ → Bool → CreditReader × Option ℕ
poll_read r n accepted =
    let counted = record r { pending = r.pending + n } in
    if ltb 0 n
    then (if leb credit_batch counted.pending
        then (if accepted
            then (record counted { pending = 0 }, some counted.pending)
            else (counted, none))
        else (counted, none))
    else (r, none)

-- The frame of that amount.
unfoldable pub credit_frame : ℕ → ℕ → Frame
credit_frame id amt = Frame.new id frame_stream_credit (encode_varint [] amt)

-- `encode_frame`
unfoldable pub encode_frame : Frame → List ℕ
encode_frame f = Frame.encode [] f

pub data Inbound : Type 0 where
  frame : List ℕ → Inbound
  drop_frame : Inbound
  close : Inbound

module _ (b3 : Blake3) where
  -- The bytes of the binary message; the salt is drawn by the obfuscator.
  unfoldable pub outbound : Frame → Option Obfuscator → List ℕ → List ℕ × Option Obfuscator
  unfolding encode_frame
  outbound f none salt = (encode_frame f, none)
  outbound f (some ob) salt = let (b, ob') = encrypt b3 ob salt (encode_frame f) in (b, some ob')

  unfoldable pub inbound :
      Metrics → List ℕ → Option Obfuscator → Inbound × (Option Obfuscator × Metrics)
  inbound m bytes none = (frame bytes, (none, m))
  inbound m bytes (some ob) =
      let (outcome, ob', m') = decrypt_outcome b3 m ob bytes in
      (
        elim outcome [
          | DecryptOutcome.ok v ↦ frame v
          | DecryptOutcome.replay ↦ drop_frame
          | DecryptOutcome.invalid ↦ close
        ],
        (some ob', m'),
      )
