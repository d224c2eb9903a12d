-- ===== src/Obfuscator/RoundTrip.antt =====
-- Decrypting what was encrypted under the same key.
use hydr.Base.{
  ℕ, suc, ◌+◌, ◌-◌, ◌%◌, ◌<◌, ◌≤◌, ◌^◌, ◌≡◌, refl, ap, ap₂, ◌∙◌, arith, List, [], ◌∷◌, ◌++◌,
}
use hydr.Base.{length, take, drop, length-append, length-take, take-append_of, drop-append_of}
use hydr.Base.{le→ltb, if◌then◌else◌}
use hydr.Base.Bits.{bit_xor-cancel}
use hydr.Base.Blake3.{Blake3}
use hydr.Base.Sets.{list_beq_refl, nat_eq}
use hydr.Message.{tag_len}
use hydr.Metrics.{Metrics}
use hydr.Replay
use hydr.Varint.Bytes.{be_bytes, from_be_bytes, length-be_bytes, from_be-be_bytes_eight}
use hydr.Obfuscator.{
  ok, replay, Obfuscator, key_at, xor_from, salt_len, tag, xor_in_place, encrypt, admit,
  decrypt_outcome,
}

pub length-xor_from : (ks : List ℕ) (i : ℕ) (bs : List ℕ) → length (xor_from ks i bs) ≡ length bs
unfolding xor_from
length-xor_from ks i [] = refl
length-xor_from ks i (b ∷ bs) = ap suc (length-xor_from ks (i + 1) bs)

-- The key stream applied twice is the text again.
pub xor_from-xor_from : (ks : List ℕ) (i : ℕ) (bs : List ℕ) → xor_from ks i (xor_from ks i bs) ≡ bs
unfolding xor_from
xor_from-xor_from ks i [] = refl
xor_from-xor_from ks i (b ∷ bs) =
    ap₂ ◌∷◌ (bit_xor-cancel b (key_at ks (i % length ks))) (xor_from-xor_from ks (i + 1) bs)

module _ (b3 : Blake3) where
  open b3 use {length-keyed_hash}

  pub length-tag : (o : Obfuscator) (body : List ℕ) → length (tag b3 o body) ≡ tag_len
  unfolding tag
  length-tag o body = length-take tag_len _ (omega (arith, length-keyed_hash o.key32 body))

  pub admit_outcome :
      (m : Metrics) (o : Obfuscator) (seq : ℕ) (payload : List ℕ)
      → (admit b3 m o seq payload).0
        ≡ (if (Replay.observe o.recv seq).1 then ok payload else replay)
  unfolding admit
  admit_outcome m o seq payload = ground arith

  -- Any frame whose tag fits its body passes the checks, whatever its salt.
  pub decrypt-frame :
      (m : Metrics) (o : Obfuscator) (salt body : List ℕ)
      → length salt ≡ salt_len
      → 8 ≤ length body
      → let plain = xor_in_place b3 o body salt in
        decrypt_outcome b3 m o (salt ++ (body ++ tag b3 o body))
        ≡ admit b3 m o (from_be_bytes (take 8 plain)) (drop 8 plain)
  unfolding decrypt_outcome
  decrypt-frame m o salt body e h =
      let t = tag b3 o body in
      let rest = body ++ t in
      let size : length rest ≡ length body + tag_len =
        omega (arith, length-append body t, length-tag o body) in
      let cut : length body ≡ length rest - tag_len = omega (arith, size) in
      let enough : salt_len + tag_len + 8 ≤ length (salt ++ rest) =
        omega (arith, length-append salt rest, e, size) in
      rw (
        le→ltb (length (salt ++ rest)) (salt_len + tag_len + 8) enough,
        drop-append_of salt rest e,
        take-append_of salt rest e,
        take-append_of body t cut,
        drop-append_of body t cut,
        list_beq_refl t,
      )

  -- The sender's number and payload come out of the frame that it wrote.
  pub decrypt-encrypt_frame :
      (m : Metrics) (s r : Obfuscator) (salt buf : List ℕ)
      → s.key ≡ r.key
      → s.key32 ≡ r.key32
      → s.send_seq < 2 ^ 64
      → length salt ≡ salt_len
      → decrypt_outcome b3 m r (encrypt b3 s salt buf).0 ≡ admit b3 m r s.send_seq buf
  unfolding encrypt
  decrypt-encrypt_frame m s r salt buf k k32 h e =
      let plain = be_bytes 8 s.send_seq ++ buf in
      let body = xor_in_place b3 s plain salt in
      let seq8 = length-be_bytes 8 s.send_seq in
      let same_tag : tag b3 s body ≡ tag b3 r body = unfold tag in rw k32 in
      let width : length body ≡ length plain = unfold xor_in_place in length-xor_from _ 0 plain in
      let long : 8 ≤ length body =
        omega (arith, width, length-append (be_bytes 8 s.send_seq) buf, seq8) in
      let back : xor_in_place b3 r body salt ≡ plain =
        unfold xor_in_place in rw (← k) (xor_from-xor_from _ 0 plain) in
      rw same_tag (
        decrypt-frame m r salt body e long
        ∙ rw (
          back,
          take-append_of (be_bytes 8 s.send_seq) buf seq8,
          drop-append_of (be_bytes 8 s.send_seq) buf seq8,
          from_be-be_bytes_eight s.send_seq h,
        ))

  -- Under the same key a frame is never invalid: it is accepted with its payload unchanged if the
  -- receiver's filter takes its number as fresh, and dropped as a replay otherwise.
  pub decrypt-encrypt :
      (m : Metrics) (s r : Obfuscator) (salt buf : List ℕ)
      → s.key ≡ r.key
      → s.key32 ≡ r.key32
      → s.send_seq < 2 ^ 64
      → length salt ≡ salt_len
      → (decrypt_outcome b3 m r (encrypt b3 s salt buf).0).0
        ≡ (if (Replay.observe r.recv s.send_seq).1 then ok buf else replay)
  decrypt-encrypt m s r salt buf k k32 h e =
      rw (decrypt-encrypt_frame m s r salt buf k k32 h e) (admit_outcome m r s.send_seq buf)

  pub length-encrypt :
      (s : Obfuscator) (salt buf : List ℕ)
      → length salt ≡ salt_len
      → length (encrypt b3 s salt buf).0 ≡ length buf + 32
  unfolding encrypt xor_in_place
  length-encrypt s salt buf e =
      let plain = be_bytes 8 s.send_seq ++ buf in
      let body = xor_from (b3.hash (s.key ++ salt)) 0 plain in
      omega (
        arith,
        e,
        length-append salt (body ++ tag b3 s body),
        length-append body (tag b3 s body),
        length-tag s body,
        length-xor_from (b3.hash (s.key ++ salt)) 0 plain,
        length-append (be_bytes 8 s.send_seq) buf,
        length-be_bytes 8 s.send_seq,
      )
