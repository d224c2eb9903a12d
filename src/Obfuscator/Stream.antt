-- ===== src/Obfuscator/Stream.antt =====
-- A whole stream of frames, from a sender to a receiver with the same key.
use hydr.Base.{ℕ, suc, ◌+◌, ◌*◌, ◌%◌, ◌<◌, ◌≤◌, ◌^◌, ◌≡◌, refl, ap, arith, List, [], ◌∷◌}
use hydr.Base.{map, length, All, le→ltb, lt→ltb, true, false}
use hydr.Base.Blake3.{Blake3}
use hydr.Base.Sets.{contains, nat_eq}
use hydr.Metrics.{Metrics, incr}
use hydr.Replay
use hydr.Replay.{Filter, observe, advance, trim, retain_from}
use hydr.Replay.Memory.{contains-retain_from-false}
use hydr.Obfuscator.{DecryptOutcome, ok, Obfuscator, salt_len, new, encrypt, admit, decrypt_outcome}
use hydr.Obfuscator.RoundTrip.{decrypt-encrypt_frame}
use native.Mathlib.Decide.{dec_lt}

-- The filter has seen only numbers below `k`.
pub record IsReady (k : ℕ) (g : Filter) : Type 0 where
  pub bottom : g.floor ≤ k
  pub last : g.last ≤ k
  pub unseen : (x : ℕ) → k ≤ x → contains x g.seen ≡ false

trim-IsReady : (k : ℕ) (g : Filter) → IsReady k g → IsReady k (trim g)
unfolding trim
trim-IsReady k g h = elim (dec_lt (g.window * 2) (length g.seen)) [
  | no small ↦ rw (le→ltb (g.window * 2) (length g.seen) (omega arith), trim) h
  | yes large ↦
      rw (lt→ltb (g.window * 2) (length g.seen) large, trim)
        (record {
          bottom = h.bottom;
          last = h.last;
          unseen = λ x p. contains-retain_from-false g.floor x g.seen (h.unseen x p);
        })
]

advance-IsReady :
    (k : ℕ) (g : Filter)
    → IsReady k g
    → IsReady (suc k) (advance (record g { seen = k ∷ g.seen }) k)
unfolding advance
advance-IsReady k g h =
    let grown : (x : ℕ) → suc k ≤ x → contains x (k ∷ g.seen) ≡ false =
      λ x p. ground (arith, h.unseen x (omega arith)) in
    elim (dec_lt g.last k) [
      | yes more ↦
          rw (lt→ltb g.last k more, advance)
            (record { bottom = omega arith; last = omega arith; unseen = grown })
      | no same ↦
          rw (le→ltb g.last k (omega arith), advance)
            (record {
              bottom = omega (arith, h.bottom);
              last = omega (arith, h.last);
              unseen = grown;
            })
    ]

pub observe-IsReady :
    (k : ℕ) (g : Filter) → IsReady k g → ((observe g k).1 ≡ true) × IsReady (suc k) (observe g k).0
unfolding observe
observe-IsReady k g h =
    rw (le→ltb k g.floor h.bottom, h.unseen k (omega arith), observe)
      (refl, trim-IsReady (suc k) _ (advance-IsReady k g h))

module _ (b3 : Blake3) where
  -- A message with its salt.
  abbrev Message : Type 0
  Message = List ℕ × List ℕ

  unfoldable pub send_all : Obfuscator → List Message → List (List ℕ)
  send_all s [] = []
  send_all s ((salt, buf) ∷ ms) = let (frame, s') = encrypt b3 s salt buf in frame ∷ send_all s' ms

  unfoldable pub receive_all : Metrics → Obfuscator → List (List ℕ) → List DecryptOutcome
  receive_all m r [] = []
  receive_all m r (frame ∷ frames) =
      let (outcome, r', m') = decrypt_outcome b3 m r frame in outcome ∷ receive_all m' r' frames

  pub stream_step :
      (m : Metrics) (s r : Obfuscator) (salt buf : List ℕ)
      → s.key ≡ r.key
      → s.key32 ≡ r.key32
      → s.send_seq < 2 ^ 64
      → length salt ≡ salt_len
      → IsReady s.send_seq r.recv
      → decrypt_outcome b3 m r (encrypt b3 s salt buf).0
        ≡ (ok buf, record r { recv = (observe r.recv s.send_seq).0 }, m)
  stream_step m s r salt buf k k32 h e ready =
      rw (decrypt-encrypt_frame b3 m s r salt buf k k32 h e)
        (unfold admit in rw ((observe-IsReady s.send_seq r.recv ready).0, admit))

  pub sender_step :
      (s : Obfuscator) (salt buf : List ℕ)
      → s.send_seq + 1 < 2 ^ 64
      → (encrypt b3 s salt buf).1 ≡ record s { send_seq = suc s.send_seq }
  unfolding encrypt incr
  sender_step s salt buf h =
      let next : (s.send_seq + 1) % 2 ^ 64 ≡ suc s.send_seq = omega arith in rw next

  stream_lem :
      (ms : List Message) (m : Metrics) (s r : Obfuscator)
      → s.key ≡ r.key
      → s.key32 ≡ r.key32
      → s.send_seq + length ms < 2 ^ 64
      → All (λ p. length p.0 ≡ salt_len) ms
      → IsReady s.send_seq r.recv
      → receive_all m r (send_all s ms) ≡ map (λ p. ok p.1) ms
  unfolding receive_all send_all
  stream_lem [] m s r k k32 h e ready = refl
  stream_lem ((salt, buf) ∷ ms) m s r k k32 h e ready =
      let r' : Obfuscator = record r { recv = (observe r.recv s.send_seq).0 } in
      let s' : Obfuscator = record s { send_seq = suc s.send_seq } in
      rw
        (
          stream_step m s r salt buf k k32 (omega arith) e.0 ready,
          sender_step s salt buf (omega arith),
        )
        (ap (◌∷◌ (ok buf)) (
          stream_lem ms m s' r' k k32 (omega arith) e.1
            (observe-IsReady s.send_seq r.recv ready).1))

  -- From a fresh pair of endpoints with one key, every message of a stream arrives, in order and
  -- unchanged, whatever salts are drawn.
  pub receive_all-send_all :
      (key : List ℕ) (ms : List Message) (m : Metrics)
      → length ms < 2 ^ 64
      → All (λ p. length p.0 ≡ salt_len) ms
      → receive_all m (new b3 key) (send_all (new b3 key) ms) ≡ map (λ p. ok p.1) ms
  unfolding new Replay.new
  receive_all-send_all key ms m h e =
      stream_lem ms m (new b3 key) (new b3 key) refl refl (omega arith) e
        (record { bottom = omega arith; last = omega arith; unseen = λ x p. refl })
