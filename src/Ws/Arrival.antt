-- ===== src/Ws/Arrival.antt =====
-- A message of crates/hydr-transport/src/ws.rs at the other end of its socket: the frame that was sent.
use hydr.Base.{ℕ, suc, ◌+◌, ◌<◌, ◌≤◌, ◌^◌, ◌≡◌, refl, ap, arith, List, [], append-nil}
use hydr.Base.{Option, none, some, length}
use hydr.Base.Blake3.{Blake3}
use hydr.Base.Results.{ok}
use hydr.Base.Utf8.{Utf8}
use hydr.Frame
use hydr.Frame.{Frame, max_body_len}
use hydr.Frame.RoundTrip.{decode-encode_frame}
use hydr.Metrics.{Metrics}
use hydr.Obfuscator.{Obfuscator, salt_len}
use hydr.Obfuscator.Stream.{IsReady, stream_step, sender_step, observe-IsReady}
use hydr.Replay.{observe}
use hydr.Ws.{frame, inbound, outbound, encode_frame}
use hydr.Ws.Session.{Conn, Validator, OutMsg}
use hydr.Ws.Dispatch.{dispatch, decoded, handle_frame}
use hydr.Ws.Run.{Task, binary, keeps_going, on_inbound, turn}

-- The obfuscators of the two ends fit for `n` more messages: none, or one key and a filter that has
-- not seen the numbers to come.
abbrev pub Paired : ℕ → Option Obfuscator → Option Obfuscator → Type 0
Paired n none none = Unit
Paired n none (some r) = ⊥
Paired n (some s) none = ⊥
Paired n (some s) (some r) =
    (s.key ≡ r.key) × (s.key32 ≡ r.key32) × (s.send_seq + n < 2 ^ 64) × IsReady s.send_seq r.recv

-- A frame that the format can carry, under a salt of the right length.
abbrev pub Sendable : List ℕ × OutMsg → Type 0
Sendable (salt, OutMsg.frame f) =
    (length salt ≡ salt_len) × (f.stream_id < 2 ^ 62) × (length f.body ≤ max_body_len)
Sendable (salt, OutMsg.ws_pong payload) = Unit

pub Paired-fewer : (n : ℕ) (s r : Option Obfuscator) → Paired (suc n) s r → Paired n s r
Paired-fewer n none none p = tt
Paired-fewer n none (some r) p = p
Paired-fewer n (some s) none p = p
Paired-fewer n (some s) (some r) (k, k32, h, ready) = (k, k32, omega arith, ready)

module _ (b3 : Blake3) where
  inbound-outbound :
      (n : ℕ) (m : Metrics) (f : Frame) (salt : List ℕ) (s r : Option Obfuscator)
      → Paired (suc n) s r
      → length salt ≡ salt_len
      → (r' : Option Obfuscator) × (inbound b3 m (outbound b3 f s salt).0 r
          ≡ (frame (encode_frame f), (r', m)))
        × Paired n (outbound b3 f s salt).1 r'
  unfolding inbound outbound
  inbound-outbound n m f salt none none p e = (none, refl, tt)
  inbound-outbound n m f salt none (some r) p e = absurd p
  inbound-outbound n m f salt (some s) none p e = absurd p
  inbound-outbound n m f salt (some s) (some r) (k, k32, h, ready) e =
      let r' : Obfuscator = record r { recv = (observe r.recv s.send_seq).0 } in
      (
        some r',
        rw (stream_step b3 m s r salt (encode_frame f) k k32 (omega arith) e ready) refl,
        rw (sender_step b3 s salt (encode_frame f) (omega arith))
            (k, k32, omega arith, (observe-IsReady s.send_seq r.recv ready).1),
      )

module _ {V : Type 0} (b3 : Blake3) (u : Utf8) (auth : Option (Validator V)) where
  pub handle_frame-encode_frame :
      (c : Conn V) (f : Frame)
      → f.stream_id < 2 ^ 62
      → length f.body ≤ max_body_len
      → handle_frame u auth c (encode_frame f) ≡ dispatch u auth c f
  unfolding handle_frame encode_frame
  handle_frame-encode_frame c f h k =
      let whole : Frame.decode (Frame.encode [] f) ≡ ok (f, length (Frame.encode [] f)) =
        rw (append-nil (Frame.encode [] f)) at (decode-encode_frame f [] h k) in
      ap (decoded u auth c) whole

  pub turn-outbound :
      (n : ℕ) (t : Task V) (f : Frame) (salt : List ℕ) (s : Option Obfuscator)
      → Paired (suc n) s t.obfuscation
      → Sendable (salt, OutMsg.frame f)
      → (r' : Option Obfuscator) × (turn b3 u auth t (binary (outbound b3 f s salt).0) ≡ (
        record { conn = (dispatch u auth t.conn f).1; obfuscation = r'; metrics = t.metrics },
        keeps_going (dispatch u auth t.conn f).0,
      ))
        × Paired n (outbound b3 f s salt).1 r'
  unfolding turn on_inbound
  turn-outbound n t f salt s p (e, h, k) =
      let (r', got, later) = inbound-outbound b3 n t.metrics f salt s t.obfuscation p e in
      (r', rw (got, handle_frame-encode_frame t.conn f h k) refl, later)
