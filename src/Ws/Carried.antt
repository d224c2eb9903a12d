-- ===== src/Ws/Carried.antt =====
-- crates/hydr-transport/src/ws.rs from the pipe that a stream is read from at one end to the pipe that it is
-- written to at the other: `pump_stream`, `writer`, the loop and `stream_writer`.
use hydr.Base.{
  ℕ, suc, ◌+◌, ◌≤◌, ◌<◌, ◌^◌, ◌≡◌, ◌≢◌, refl, sym, ap, ◌∙◌, arith, List, [], ◌∷◌, ◌++◌, Bool, true,
  Option, none, some, map, length, length-append, All, All-append, subst, ==_refl,
}
use hydr.Base.Blake3.{Blake3}
use hydr.Base.Maps.{get, put, remove_entry, get-put}
use hydr.Base.Utf8.{Utf8}
use hydr.Frame
use hydr.Frame.{Frame}
use hydr.Obfuscator.{Obfuscator, salt_len}
use hydr.Ws.{chunk_len}
use hydr.Ws.Session.{Conn, Validator, OutMsg}
use hydr.Ws.Dispatch.{dispatch, on_stream_close}
use hydr.Ws.Run.{Task, run}
use hydr.Ws.Writer.{received, writer, handle_all}
use hydr.Ws.Arrival.{Paired, Sendable, Paired-fewer}
use hydr.Ws.Delivery.{run-writer, data_frames, dispatch-data, handle_all_on, delivered}
use hydr.Ws.Pump.{pump_stream, stream_writer, salted, close_frame}

abbrev pub concat : List (List ℕ) → List ℕ
concat [] = []
concat (c ∷ cs) = c ++ concat cs

-- A writer whose writes succeed writes the chunks one after the other, and shuts the pipe down.
stream_writer-concat :
    (chunks : List (List ℕ)) → stream_writer (length chunks) chunks ≡ (concat chunks, true)
unfolding stream_writer
stream_writer-concat [] = refl
stream_writer-concat (c ∷ cs) =
    ap (λ (x : List ℕ × Bool). (c ++ x.0, x.1)) (stream_writer-concat cs)

-- What is read before the end of the pipe.
abbrev pub reads_of : List (List ℕ) → List (Option (List ℕ)) → List (Option (List ℕ))
reads_of chunks rest = map some chunks ++ (some [] ∷ rest)

pump_stream-reads_of :
    (id : ℕ) (chunks : List (List ℕ)) (rest : List (Option (List ℕ)))
    → All (λ c. c ≢ []) chunks
    → pump_stream id (reads_of chunks rest)
      ≡ (map (Frame.data_frame id) chunks ++ (close_frame id ∷ []), true)
unfolding pump_stream
pump_stream-reads_of id [] rest all = refl
pump_stream-reads_of id ([] ∷ chunks) rest (some_bytes, all) = absurd (some_bytes refl)
pump_stream-reads_of id ((b ∷ bs) ∷ chunks) rest (some_bytes, all) =
    ap (λ (x : List Frame × Bool). (Frame.data_frame id (b ∷ bs) ∷ x.0, x.1))
      (pump_stream-reads_of id chunks rest all)

-- Each chunk with its salt.
abbrev with_salts : (ℕ → List ℕ) → ℕ → List (List ℕ) → List (List ℕ × List ℕ)
with_salts salt k [] = []
with_salts salt k (c ∷ cs) = (salt k, c) ∷ with_salts salt (suc k) cs

map-with_salts :
    (salt : ℕ → List ℕ) (k : ℕ) (chunks : List (List ℕ))
    → map (λ (p : List ℕ × List ℕ). p.1) (with_salts salt k chunks) ≡ chunks
map-with_salts salt k [] = refl
map-with_salts salt k (c ∷ cs) = ap (◌∷◌ c) (map-with_salts salt (suc k) cs)

salted-append :
    (salt : ℕ → List ℕ) (k id : ℕ) (chunks : List (List ℕ)) (f : Frame)
    → salted salt k (map (Frame.data_frame id) chunks ++ (f ∷ []))
      ≡ data_frames id (with_salts salt k chunks)
        ++ ((salt (k + length chunks), OutMsg.frame f) ∷ [])
unfolding salted
salted-append salt k id [] f = ap (λ n. (salt n, OutMsg.frame f) ∷ []) (omega arith)
salted-append salt k id (c ∷ cs) f = ap (◌∷◌ (salt k, OutMsg.frame (Frame.data_frame id c))) (
    salted-append salt (suc k) id cs f
    ∙ ap (λ n. data_frames id (with_salts salt (suc k) cs) ++ ((salt n, OutMsg.frame f) ∷ []))
        (omega arith))

module _ {V : Type 0} (u : Utf8) (auth : Option (Validator V)) (id : ℕ) where
  abbrev queued : Conn V → List (List ℕ) → Conn V
  queued c chunks = record c { streams = put id chunks c.streams }

  -- What the chunks and the close of a stream do at the other end.
  handle_all-closed :
      (chunks : List (List ℕ × List ℕ)) (salt : List ℕ) (c : Conn V) (old : List (List ℕ))
      → get id c.streams ≡ some old
      → get id (remove_entry id c.streams) ≡ none
      → let r =
          handle_all u auth c
            (data_frames id chunks ++ ((salt, OutMsg.frame (close_frame id)) ∷ [])) in
        (r.1 ≡ true) × (get id r.0.streams ≡ none)
  unfolding handle_all dispatch on_stream_close put
  handle_all-closed [] salt c old e one = (refl, one)
  handle_all-closed ((salt', chunk) ∷ chunks) salt c old e one =
      let longer = old ++ (chunk ∷ []) in
      let here : get id (queued c longer).streams ≡ some longer =
        get-put id id longer c.streams ∙ rw (==_refl id) refl in
      let (going, gone) =
        handle_all-closed chunks salt (queued c longer) longer here (rw (==_refl id) one) in
      let handled =
        handle_all_on u auth c (queued c longer) salt' (Frame.data_frame id chunk)
          (data_frames id chunks ++ ((salt, OutMsg.frame (close_frame id)) ∷ []))
          (dispatch-data u auth id c chunk old e) in
      (
        ap (λ (x : Conn V × Bool). x.1) handled ∙ going,
        ap (λ (x : Conn V × Bool). get id x.0.streams) handled ∙ gone,
      )

-- What `read` gives: some bytes, no more than the buffer holds.
abbrev pub IsRead : List ℕ → Type 0
IsRead c = (c ≢ []) × (length c ≤ chunk_len)

salted-data :
    (id k : ℕ) (salt : ℕ → List ℕ) (chunks : List (List ℕ))
    → salted salt k (map (Frame.data_frame id) chunks) ≡ data_frames id (with_salts salt k chunks)
unfolding salted
salted-data id k salt [] = refl
salted-data id k salt (c ∷ cs) =
    ap (◌∷◌ (salt k, OutMsg.frame (Frame.data_frame id c))) (salted-data id (suc k) salt cs)

length-data_frames :
    (id k : ℕ) (salt : ℕ → List ℕ) (chunks : List (List ℕ))
    → length (data_frames id (with_salts salt k chunks)) ≡ length chunks
length-data_frames id k salt [] = refl
length-data_frames id k salt (c ∷ cs) = ap suc (length-data_frames id (suc k) salt cs)

data_frames-Sendable :
    (id k : ℕ) (salt : ℕ → List ℕ) (chunks : List (List ℕ))
    → id < 2 ^ 62
    → ((i : ℕ) → length (salt i) ≡ salt_len)
    → All IsRead chunks
    → All Sendable (data_frames id (with_salts salt k chunks))
data_frames-Sendable id k salt [] h widths all = tt
data_frames-Sendable id k salt (c ∷ cs) h widths ((some_bytes, fits), all) =
    ((widths k, h, omega arith), data_frames-Sendable id (suc k) salt cs h widths all)

IsRead-bytes : (chunks : List (List ℕ)) → All IsRead chunks → All (λ c. c ≢ []) chunks
IsRead-bytes [] all = tt
IsRead-bytes (c ∷ cs) (r, all) = (r.0, IsRead-bytes cs all)

module _ {V : Type 0} (b3 : Blake3) (u : Utf8) (auth : Option (Validator V)) where
  -- What the loop makes of the frames of a task.
  abbrev pub carried_to : Task V → Option Obfuscator → List (List ℕ × OutMsg) → Task V × Bool
  carried_to t s msgs = run b3 u auth t (map received (writer b3 s msgs))

  -- The chunks that are read from a pipe up to its end are queued at the other end in order behind what was queued there; when
  -- STREAM_CLOSE comes behind them the connection goes on and the stream is gone from its table; and a writer whose writes
  -- succeed writes their bytes in order and then shuts its pipe down.
  pub pump_stream-carried :
      (id : ℕ) (chunks : List (List ℕ)) (rest : List (Option (List ℕ))) (salt : ℕ → List ℕ)
      (t : Task V) (s : Option Obfuscator) (old : List (List ℕ))
      → Paired (suc (length chunks)) s t.obfuscation
      → id < 2 ^ 62
      → ((i : ℕ) → length (salt i) ≡ salt_len)
      → All IsRead chunks
      → get id t.conn.streams ≡ some old
      → get id (remove_entry id t.conn.streams) ≡ none
      → let msgs = salted salt 0 (pump_stream id (reads_of chunks rest)).0 in
        ((carried_to t s msgs).1 ≡ true)
        × (get id (carried_to t s msgs).0.conn.streams ≡ none)
        × (get id (carried_to t s (salted salt 0 (map (Frame.data_frame id) chunks))).0.conn.streams
            ≡ some (old ++ chunks))
        × (stream_writer (length (old ++ chunks)) (old ++ chunks) ≡ (concat (old ++ chunks), true))
  pump_stream-carried id chunks rest salt t s old p h widths all e one =
      let datas = data_frames id (with_salts salt 0 chunks) in
      let last : List ℕ × OutMsg = (salt (0 + length chunks), OutMsg.frame (close_frame id)) in
      let msgs = datas ++ (last ∷ []) in
      let queued_msgs : salted salt 0 (pump_stream id (reads_of chunks rest)).0 ≡ msgs =
        ap (λ (x : List Frame × Bool). salted salt 0 x.0)
          (pump_stream-reads_of id chunks rest (IsRead-bytes chunks all))
        ∙ salted-append salt 0 id chunks (close_frame id) in
      let count : length msgs ≡ suc (length chunks) =
        omega (arith, length-append datas (last ∷ []), length-data_frames id 0 salt chunks) in
      let sendable : All Sendable msgs =
        All-append Sendable datas (last ∷ []) (data_frames-Sendable id 0 salt chunks h widths all)
          ((widths (0 + length chunks), h, omega arith), tt) in
      let (conns, ends) =
        run-writer b3 u auth msgs t s (subst (λ n. Paired n s t.obfuscation) (sym count) p)
          sendable in
      let (going, gone) =
        handle_all-closed u auth id (with_salts salt 0 chunks) (salt (0 + length chunks)) t.conn old
          e one in
      (
        ap (λ m. (carried_to t s m).1) queued_msgs ∙ ends ∙ going,
        ap (λ m. get id (carried_to t s m).0.conn.streams) queued_msgs
            ∙ ap (λ (c : Conn V). get id c.streams) conns
            ∙ gone,
        ap (λ m. get id (carried_to t s m).0.conn.streams) (salted-data id 0 salt chunks)
            ∙ (delivered b3 u auth id (with_salts salt 0 chunks) t s old id
                (subst (λ n. Paired n s t.obfuscation) (sym (length-data_frames id 0 salt chunks))
                  (Paired-fewer (length chunks) s t.obfuscation p))
                (data_frames-Sendable id 0 salt chunks h widths all) e).1
            ∙ rw (==_refl id) (ap (λ cs. some (old ++ cs)) (map-with_salts salt 0 chunks)),
        stream_writer-concat (old ++ chunks),
      )
