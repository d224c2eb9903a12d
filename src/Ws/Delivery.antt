-- ===== src/Ws/Delivery.antt =====
-- crates/hydr-transport/src/ws.rs with the obfuscation and the frames of crates/hydr-core: what one end
-- writes, the other end handles.
use hydr.Base.{
  ℕ, ◌<◌, ◌^◌, ◌≡◌, refl, sym, ap, ◌∙◌, arith, List, [], ◌∷◌, ◌++◌, append-nil, append_assoc,
}
use hydr.Base.{
  Bool, true, false, Option, some, map, length, All, Bool-cases, inl, inr, if◌then◌else◌, ◌==◌,
  ==_refl, ==_iff,
}
use hydr.Base.Blake3.{Blake3}
use hydr.Base.Maps.{get, put, get-put}
use hydr.Base.Results.{Result, ok}
use hydr.Base.Utf8.{Utf8}
use hydr.Frame
use hydr.Frame.{Frame, max_body_len}
use hydr.Obfuscator.{Obfuscator}
use hydr.Varint.{encode_varint, decode_varint, encode_varint_len}
use hydr.Varint.Decode.{decode_varint-encode_varint}
use hydr.Ws.{StreamCredit, grant, credit_frame, outbound}
use hydr.Ws.Session.{Conn, Validator, OutMsg}
use hydr.Ws.Dispatch.{dispatch, on_stream_data, on_stream_credit, grant_credit}
use hydr.Ws.Run.{Task, Input, binary, keeps_going, finish, turn, run}
use hydr.Ws.Writer.{received, writer, handle_all}
use hydr.Ws.Arrival.{Paired, Sendable, Paired-fewer, turn-outbound}

module _ {V : Type 0} (b3 : Blake3) (u : Utf8) (auth : Option (Validator V)) where
  run_on :
      (t t' : Task V) (i : Input) (is : List Input)
      → turn b3 u auth t i ≡ (t', true)
      → run b3 u auth t (i ∷ is) ≡ run b3 u auth t' is
  unfolding run
  run_on t t' i is e =
      let more : (turn b3 u auth t i).1 ≡ true = ap (λ (x : Task V × Bool). x.1) e in
      rw (more, run) (ap (λ (x : Task V × Bool). run b3 u auth x.0 is) e)

  run_out :
      (t t' : Task V) (i : Input) (is : List Input)
      → turn b3 u auth t i ≡ (t', false)
      → run b3 u auth t (i ∷ is) ≡ (record t' { conn = finish t'.conn }, false)
  unfolding run
  run_out t t' i is e =
      let last : (turn b3 u auth t i).1 ≡ false = ap (λ (x : Task V × Bool). x.1) e in
      let ended : Task V × Bool → Task V × Bool =
        λ x. (record (x.0) { conn = finish x.0.conn }, false) in
      rw (last, run) (ap ended e)

  -- When the obfuscators of the two ends fit and every frame can be carried, the loop that takes what the writer of the
  -- other end puts on the socket ends in the state, and stops or goes on, as if it handled the queued frames one after the other.
  pub run-writer :
      (msgs : List (List ℕ × OutMsg)) (t : Task V) (s : Option Obfuscator)
      → Paired (length msgs) s t.obfuscation
      → All Sendable msgs
      → ((run b3 u auth t (map received (writer b3 s msgs))).0.conn
          ≡ (handle_all u auth t.conn msgs).0)
        × ((run b3 u auth t (map received (writer b3 s msgs))).1
            ≡ (handle_all u auth t.conn msgs).1)
  unfolding run handle_all writer received
  run-writer [] t s p all = (refl, refl)
  run-writer ((salt, OutMsg.frame f) ∷ msgs) t s p (ready, all) =
      let (r', here, later) = turn-outbound b3 u auth (length msgs) t f salt s p ready in
      let t' : Task V = record {
        conn = (dispatch u auth t.conn f).1;
        obfuscation = r';
        metrics = t.metrics;
      } in
      let s' = (outbound b3 f s salt).1 in
      elim (Bool-cases (keeps_going (dispatch u auth t.conn f).0)) [
        | inl more ↦
            let ran : run b3 u auth t (map received (writer b3 s ((salt, OutMsg.frame f) ∷ msgs)))
                ≡ run b3 u auth t' (map received (writer b3 s' msgs)) =
              run_on t t' (binary (outbound b3 f s salt).0) (map received (writer b3 s' msgs))
                (here ∙ ap (λ b. (t', b)) more) in
            let handled : handle_all u auth t.conn ((salt, OutMsg.frame f) ∷ msgs)
                ≡ handle_all u auth t'.conn msgs =
              rw (more, handle_all) refl in
            let (conns, ends) = run-writer msgs t' s' later all in
            (
              ap (λ (x : Task V × Bool). x.0.conn) ran
                  ∙ conns
                  ∙ ap (λ (x : Conn V × Bool). x.0) (sym handled),
              ap (λ (x : Task V × Bool). x.1) ran
                  ∙ ends
                  ∙ ap (λ (x : Conn V × Bool). x.1) (sym handled),
            )
        | inr last ↦
            let ran : run b3 u auth t (map received (writer b3 s ((salt, OutMsg.frame f) ∷ msgs)))
                ≡ (record t' { conn = finish t'.conn }, false) =
              run_out t t' (binary (outbound b3 f s salt).0) (map received (writer b3 s' msgs))
                (here ∙ ap (λ b. (t', b)) last) in
            let handled : handle_all u auth t.conn ((salt, OutMsg.frame f) ∷ msgs)
                ≡ (finish t'.conn, false) =
              rw (last, handle_all) refl in
            (
              ap (λ (x : Task V × Bool). x.0.conn) ran
                  ∙ ap (λ (x : Conn V × Bool). x.0) (sym handled),
              ap (λ (x : Task V × Bool). x.1) ran ∙ ap (λ (x : Conn V × Bool). x.1) (sym handled),
            )
      ]
  run-writer ((salt, OutMsg.ws_pong payload) ∷ msgs) t s p (ready, all) =
      unfold turn in run-writer msgs t s (Paired-fewer (length msgs) s t.obfuscation p) all

-- The frames that `pump_stream` queues for some chunks, each with its salt.
abbrev pub data_frames : ℕ → List (List ℕ × List ℕ) → List (List ℕ × OutMsg)
data_frames id chunks = map (λ p. (p.0, OutMsg.frame (Frame.data_frame id p.1))) chunks

module _ {V : Type 0} (u : Utf8) (auth : Option (Validator V)) where
  pub handle_all_on :
      (c c' : Conn V) (salt : List ℕ) (f : Frame) (msgs : List (List ℕ × OutMsg))
      → dispatch u auth c f ≡ (ok tt, c')
      → handle_all u auth c ((salt, OutMsg.frame f) ∷ msgs) ≡ handle_all u auth c' msgs
  unfolding handle_all keeps_going
  handle_all_on c c' salt f msgs e =
      let more : keeps_going (dispatch u auth c f).0 ≡ true =
        ap (λ (x : Result (Unit {0}) × Conn V). keeps_going x.0) e in
      rw (more, handle_all) (ap (λ (x : Result (Unit {0}) × Conn V). handle_all u auth x.1 msgs) e)

module _ {V : Type 0} (u : Utf8) (auth : Option (Validator V)) (id : ℕ) where
  pub dispatch-data :
      (c : Conn V) (chunk : List ℕ) (old : List (List ℕ))
      → get id c.streams ≡ some old
      → dispatch u auth c (Frame.data_frame id chunk)
        ≡ (ok tt, record c { streams = put id (old ++ (chunk ∷ [])) c.streams })
  unfolding dispatch on_stream_data
  dispatch-data c chunk old e = rw (e, on_stream_data) refl

  pub handle_all-data :
      (chunks : List (List ℕ × List ℕ)) (c : Conn V) (old : List (List ℕ)) (j : ℕ)
      → get id c.streams ≡ some old
      → ((handle_all u auth c (data_frames id chunks)).1 ≡ true)
        × (get j (handle_all u auth c (data_frames id chunks)).0.streams
            ≡ (if id == j then some (old ++ map (λ p. p.1) chunks) else get j c.streams))
  unfolding handle_all keeps_going
  handle_all-data [] c old j e = elim (Bool-cases (id == j)) [
    | inl same ↦
        let p : id ≡ j = (==_iff id j).0 same in rw same (refl, rw (append-nil old) (rw p at e))
    | inr other ↦ rw other (refl, refl)
  ]
  handle_all-data ((salt, chunk) ∷ chunks) c old j e =
      let longer = old ++ (chunk ∷ []) in
      let c' : Conn V = record c { streams = put id longer c.streams } in
      let here : get id c'.streams ≡ some longer =
        get-put id id longer c.streams ∙ rw (==_refl id) refl in
      let (going, rest) = handle_all-data chunks c' longer j here in
      let stored = get-put id j longer c.streams in
      let step = dispatch-data c chunk old e in
      let handled =
        handle_all_on u auth c c' salt (Frame.data_frame id chunk) (data_frames id chunks) step in
      (
        ap (λ (x : Conn V × Bool). x.1) handled ∙ going,
        ap (λ (x : Conn V × Bool). get j x.0.streams) handled ∙ elim (Bool-cases (id == j)) [
          | inl same ↦
              rw same (
                (rw same at rest) ∙ ap some (append_assoc old (chunk ∷ []) (map (λ p. p.1) chunks)))
          | inr other ↦ rw other ((rw other at rest) ∙ (rw other at stored))
        ],
      )

module _ {V : Type 0} (b3 : Blake3) (u : Utf8) (auth : Option (Validator V)) where
  -- The chunks that one end sends on a stream which the other end has open are queued there in order and whole,
  -- behind what was queued before, every other stream keeps its queue, and the connection goes on. The obfuscators
  -- fit, the number of the stream and the lengths of the chunks are within the format's bounds.
  pub delivered :
      (id : ℕ) (chunks : List (List ℕ × List ℕ)) (t : Task V) (s : Option Obfuscator)
      (old : List (List ℕ)) (j : ℕ)
      → Paired (length (data_frames id chunks)) s t.obfuscation
      → All Sendable (data_frames id chunks)
      → get id t.conn.streams ≡ some old
      → ((run b3 u auth t (map received (writer b3 s (data_frames id chunks)))).1 ≡ true)
        × (get j
              (run b3 u auth t (map received (writer b3 s (data_frames id chunks)))).0.conn.streams
            ≡ (if id == j then some (old ++ map (λ p. p.1) chunks) else get j t.conn.streams))
  delivered id chunks t s old j p all e =
      let (conns, ends) = run-writer b3 u auth (data_frames id chunks) t s p all in
      let (going, queued) = handle_all-data u auth id chunks t.conn old j e in
      (ends ∙ going, ap (λ (x : Conn V). get j x.streams) conns ∙ queued)

  -- A credit frame for a stream other than 0, of an amount that fits the format, opens the sender's window by this
  -- amount and changes no other stream's.
  pub credited :
      (c : Conn V) (id amt : ℕ) (credit : StreamCredit) (j : ℕ)
      → 0 < id
      → amt < 2 ^ 62
      → get id c.credits ≡ some credit
      → get j (dispatch u auth c (credit_frame id amt)).1.credits
        ≡ (if id == j then some (grant credit amt) else get j c.credits)
  unfolding dispatch on_stream_credit grant_credit credit_frame
  credited c id amt credit j h k e =
      let zero_id : (id == 0) ≡ false = ground arith in
      let amount : decode_varint (encode_varint [] amt) ≡ ok (amt, encode_varint_len amt) =
        (rw (append-nil (encode_varint [] amt)) at
          (decode_varint-encode_varint amt [] (omega arith)))
        ∙ ap (λ n. ok (n, encode_varint_len amt)) (omega arith) in
      rw (zero_id, amount, e, grant_credit) (get-put id j (grant credit amt) c.credits)
