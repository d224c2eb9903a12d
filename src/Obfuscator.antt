-- ===== src/Obfuscator.antt =====
-- `Obfuscator` of crates/hydr-core/src/obfuscation.rs. The random salt is an argument. The guard on the
-- length keeps each `split_at` in range, so that they are `take` and `drop`; and `seq_bytes` has eight
-- bytes, so that its conversion does not fail.
pub mod RoundTrip
pub mod Stream
pub mod Forgery
use hydr.Base.{ℕ, ◌+◌, ◌-◌, ◌%◌, ◌^◌, List, [], ◌∷◌, ◌++◌, Bool, not, Option, some, none}
use hydr.Base.{length, take, drop, get_elem?, bit_xor, ltb, if◌then◌else◌}
use hydr.Base.Blake3.{Blake3}
use hydr.Base.Sets.{list_beq, nat_eq}
use hydr.Message.{tag_len}
use hydr.Metrics.{Metrics, incr}
use hydr.Replay
use hydr.Replay.{Filter}
use hydr.Varint.Bytes.{be_bytes, from_be_bytes}

abbrev pub salt_len : ℕ
salt_len = 8

pub data DecryptOutcome : Type 0 where
  ok : List ℕ → DecryptOutcome
  replay : DecryptOutcome
  invalid : DecryptOutcome

pub record Obfuscator : Type 0 where
  pub key : List ℕ
  pub key32 : List ℕ
  pub send_seq : ℕ
  pub recv : Filter

-- `key_stream[i]`; the index is taken modulo the length of the key stream, which is 32.
unfoldable pub key_at : List ℕ → ℕ → ℕ
key_at key_stream i = elim (get_elem? key_stream i) [ none ↦ 0 | some k ↦ k ]

-- The loop of `xor_in_place` from index `i` on.
unfoldable pub xor_from : List ℕ → ℕ → List ℕ → List ℕ
xor_from key_stream i [] = []
xor_from key_stream i (b ∷ bs) =
    bit_xor b (key_at key_stream (i % length key_stream)) ∷ xor_from key_stream (i + 1) bs

module _ (b3 : Blake3) where
  open b3 use {hash, keyed_hash}

  unfoldable pub new : List ℕ → Obfuscator
  new key = record { key = key; key32 = hash key; send_seq = 0; recv = Replay.new (2 ^ 16) }

  unfoldable pub tag : Obfuscator → List ℕ → List ℕ
  tag o body = take tag_len (keyed_hash o.key32 body)

  unfoldable pub xor_in_place : Obfuscator → List ℕ → List ℕ → List ℕ
  xor_in_place o buf salt = xor_from (hash (o.key ++ salt)) 0 buf

  unfoldable pub encrypt : Obfuscator → List ℕ → List ℕ → List ℕ × Obfuscator
  encrypt o salt buf =
      let seq = o.send_seq in
      let body = xor_in_place o (be_bytes 8 seq ++ buf) salt in
      (salt ++ (body ++ tag o body), record o { send_seq = incr seq })

  -- The last part of `decrypt_outcome`, behind the checks of the frame.
  unfoldable pub admit : Metrics → Obfuscator → ℕ → List ℕ → DecryptOutcome × Obfuscator × Metrics
  admit m o seq payload =
      let (recv', fresh) = Replay.observe o.recv seq in
      if fresh then (ok payload, record o { recv = recv' }, m) else (
        replay,
        record o { recv = recv' },
        record m { obfus_replay_dropped = incr m.obfus_replay_dropped },
      )

  unfoldable pub decrypt_outcome :
      Metrics → Obfuscator → List ℕ → DecryptOutcome × Obfuscator × Metrics
  decrypt_outcome m o buf =
      let dropped = record m { obfus_invalid = incr m.obfus_invalid } in
      let salt = take salt_len buf in
      let rest = drop salt_len buf in
      let body = take (length rest - tag_len) rest in
      let plain = xor_in_place o body salt in
      if ltb (length buf) (salt_len + tag_len + 8)
      then (invalid, o, dropped)
      else if not (list_beq (tag o body) (drop (length rest - tag_len) rest))
      then (invalid, o, dropped)
      else admit m o (from_be_bytes (take 8 plain)) (drop 8 plain)

  -- `decrypt`
  unfoldable pub decrypt : Metrics → Obfuscator → List ℕ → Option (List ℕ) × Obfuscator × Metrics
  decrypt m o buf =
      let (outcome, o', m') = decrypt_outcome m o buf in
      (elim outcome [ ok v ↦ some v | replay ↦ none | invalid ↦ none ], o', m')
