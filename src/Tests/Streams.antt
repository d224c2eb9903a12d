-- ===== src/Tests/Streams.antt =====
-- The theorems about a stream of a WebSocket tunnel, from pipe to pipe, at concrete inputs.
use hydr.Base.{
  ℕ, ◌+◌, ◌<◌, ◌≡◌, refl, arith, List, [], ◌∷◌, ◌++◌, true, Option, none, some, map, length,
}
use hydr.Base.Blake3.{toy}
use hydr.Base.Maps.{get, put}
use hydr.Base.Utf8.{ascii}
use hydr.Frame
use hydr.Metrics
use hydr.Obfuscator
use hydr.Replay
use hydr.Ws.{new_credit, recv_window, chunk_len}
use hydr.Ws.Session.{client_conn}
use hydr.Ws.Dispatch.{dispatch, start_stream}
use hydr.Ws.Run.{Task}
use hydr.Ws.Arrival.{Paired}
use hydr.Ws.Pump.{pump_stream, stream_writer, salted, close_frame}
use hydr.Ws.Carried.{carried_to, reads_of, concat, pump_stream-carried}
use hydr.Ws.HalfClosed.{chunk, credit, moves, moves-closed}

abbrev key : List ℕ
key = 7 ∷ (7 ∷ [])

abbrev salt : ℕ → List ℕ
salt i = i ∷ 2 ∷ 3 ∷ 4 ∷ 5 ∷ 6 ∷ 7 ∷ 8 ∷ []

abbrev sender : Option Obfuscator.Obfuscator
sender = some (Obfuscator.new toy key)

abbrev receiver : Task (Unit {0})
receiver = record {
  conn = start_stream client_conn 3;
  obfuscation = some (Obfuscator.new toy key);
  metrics = Metrics.new;
}

receiver-Paired : Paired 3 sender receiver.obfuscation
unfolding Obfuscator.new Replay.new
receiver-Paired = (
  refl,
  refl,
  omega arith,
  record { bottom = omega arith; last = omega arith; unseen = λ x p. refl },
)

abbrev words : List (List ℕ)
words = (104 ∷ (105 ∷ [])) ∷ ((33 ∷ []) ∷ [])

pump_stream-carried_example :
    let msgs = salted salt 0 (pump_stream 3 (reads_of words (none ∷ []))).0 in
    ((carried_to toy ascii none receiver sender msgs).1 ≡ true)
    × (get 3 (carried_to toy ascii none receiver sender msgs).0.conn.streams ≡ none)
    × (get 3
          (carried_to toy ascii none receiver sender
            (salted salt 0 (map (Frame.data_frame 3) words))).0.conn.streams
        ≡ some ([] ++ words))
    × (stream_writer (length ([] ++ words)) ([] ++ words) ≡ (concat ([] ++ words), true))
unfolding start_stream get put client_conn
pump_stream-carried_example =
    pump_stream-carried toy ascii none 3 words (none ∷ []) salt receiver sender [] receiver-Paired
      (omega arith) (λ i. refl) (((λ e. cc), omega arith), (((λ e. cc), omega arith), tt)) refl refl

moves-closed_example :
    new_credit.outstanding
      + (moves ascii none 3
          ((dispatch ascii none receiver.conn (close_frame 3)).1, (new_credit, 0))
          (chunk 1000 ∷ (credit 1000 ∷ (chunk 5 ∷ [])))).1.1
    < recv_window + chunk_len
unfolding start_stream get put client_conn
moves-closed_example =
    moves-closed ascii none 3 receiver.conn new_credit (chunk 1000 ∷ (credit 1000 ∷ (chunk 5 ∷ [])))
      refl (omega arith) (omega arith, (tt, (omega arith, tt)))
