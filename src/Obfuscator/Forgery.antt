-- ===== src/Obfuscator/Forgery.antt =====
-- What the tag covers: the body, and not the salt in front of it.
use hydr.Base.{ℕ, ◌+◌, ◌-◌, ◌≤◌, ◌≡◌, ◌≢◌, refl, sym, arith, List, ◌++◌}
use hydr.Base.{length, drop, length-append, take-append_of, drop-append_of, le→ltb}
use hydr.Base.{false, Bool-cases, inl, inr}
use hydr.Base.Blake3.{Blake3}
use hydr.Base.Sets.{list_beq, list_beq_sound, nat_eq}
use hydr.Message.{tag_len}
use hydr.Metrics.{Metrics}
use hydr.Varint.Bytes.{be_bytes, length-be_bytes}
use hydr.Obfuscator.{invalid, Obfuscator, salt_len, tag, xor_in_place, encrypt, decrypt_outcome}
use hydr.Obfuscator.RoundTrip.{length-xor_from, decrypt-frame, admit_outcome}

module _ (b3 : Blake3) where
  -- A frame whose tag is not that of its body is refused, and the filter does not move.
  pub decrypt-bad_tag :
      (m : Metrics) (o : Obfuscator) (salt body t : List ℕ)
      → length salt ≡ salt_len
      → 8 ≤ length body
      → length t ≡ tag_len
      → t ≢ tag b3 o body
      → ((decrypt_outcome b3 m o (salt ++ (body ++ t))).0 ≡ invalid)
        × ((decrypt_outcome b3 m o (salt ++ (body ++ t))).1 ≡ o)
  unfolding decrypt_outcome
  decrypt-bad_tag m o salt body t e h w differs =
      let rest = body ++ t in
      let size : length rest ≡ length body + tag_len = omega (arith, length-append body t, w) in
      let cut : length body ≡ length rest - tag_len = omega (arith, size) in
      let enough : salt_len + tag_len + 8 ≤ length (salt ++ rest) =
        omega (arith, length-append salt rest, e, size) in
      let unequal : list_beq (tag b3 o body) t ≡ false =
        elim (Bool-cases (list_beq (tag b3 o body) t)) [
          | inl same ↦ absurd (differs (sym (list_beq_sound _ _ same)))
          | inr other ↦ other
        ] in
      rw
        (
          le→ltb (length (salt ++ rest)) (salt_len + tag_len + 8) enough,
          drop-append_of salt rest e,
          take-append_of salt rest e,
          take-append_of body t cut,
          drop-append_of body t cut,
          unequal,
        )
        (refl, refl)

  -- The salt is not covered: with any other salt in front, a frame of the sender still passes the
  -- checks of the receiver, and is accepted or dropped as its garbled number falls.
  pub decrypt-other_salt :
      (m : Metrics) (s r : Obfuscator) (salt other buf : List ℕ)
      → s.key32 ≡ r.key32
      → length salt ≡ salt_len
      → length other ≡ salt_len
      → (decrypt_outcome b3 m r (other ++ drop salt_len (encrypt b3 s salt buf).0)).0 ≢ invalid
  unfolding encrypt
  decrypt-other_salt m s r salt other buf k32 e e' =
      let plain = be_bytes 8 s.send_seq ++ buf in
      let body = xor_in_place b3 s plain salt in
      let same_tag : tag b3 s body ≡ tag b3 r body = unfold tag in rw k32 in
      let long : 8 ≤ length body =
        unfold xor_in_place in
        omega (
          arith,
          length-xor_from (b3.hash (s.key ++ salt)) 0 plain,
          length-append (be_bytes 8 s.send_seq) buf,
          length-be_bytes 8 s.send_seq,
        ) in
      rw
        (
          same_tag,
          drop-append_of salt (body ++ tag b3 r body) e,
          decrypt-frame b3 m r other body e' long,
          admit_outcome b3,
        )
        (λ p. ground (arith, p))
