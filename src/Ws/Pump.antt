-- ===== src/Ws/Pump.antt =====
-- `pump_stream` and `stream_writer` of crates/hydr-transport/src/ws.rs, the two tasks of a stream. A read of the
-- pipe is `none` if it fails, and has no bytes at its end. The wait for the window only delays what is sent;
-- it is in Ws.HalfClosed.
use hydr.Base.{ℕ, zero, suc, List, [], ◌∷◌, ◌++◌, Bool, true, false, Option, none, some}
use hydr.Frame
use hydr.Frame.{Frame, frame_stream_close}
use hydr.Ws.Session.{OutMsg}

abbrev pub close_frame : ℕ → Frame
close_frame id = Frame.new id frame_stream_close []

-- The frames that the task has queued after some reads, and whether it has ended.
unfoldable pub pump_stream : ℕ → List (Option (List ℕ)) → List Frame × Bool
pump_stream id [] = ([], false)
pump_stream id (none ∷ reads) = (close_frame id ∷ [], true)
pump_stream id (some [] ∷ reads) = (close_frame id ∷ [], true)
pump_stream id (some (b ∷ bs) ∷ reads) =
    let (frames, ended) = pump_stream id reads in (Frame.data_frame id (b ∷ bs) ∷ frames, ended)

-- What is written to the pipe of the chunks of a closed queue, and whether it is shut down then; the first
-- `working` writes succeed. What a failed write leaves in the pipe is not counted.
unfoldable pub stream_writer : (working : ℕ) → List (List ℕ) → List ℕ × Bool
stream_writer working [] = ([], true)
stream_writer zero (chunk ∷ chunks) = ([], false)
stream_writer (suc working) (chunk ∷ chunks) =
    let (bytes, done) = stream_writer working chunks in (chunk ++ bytes, done)

-- The frames as messages, each with the salt that is drawn for it.
unfoldable pub salted : (ℕ → List ℕ) → ℕ → List Frame → List (List ℕ × OutMsg)
salted salt k [] = []
salted salt k (f ∷ fs) = (salt k, OutMsg.frame f) ∷ salted salt (suc k) fs
