-- ===== src/Address/RoundTrip.antt =====
-- Reading back an encoded address.
use hydr.Base.{ℕ, suc, ◌+◌, ◌<◌, ◌≤◌, ◌^◌, ◌/◌, ◌%◌, ◌≡◌, ap, ◌∙◌, arith, List, [], ◌∷◌, ◌++◌}
use hydr.Base.{length, length-append, append_assoc, snoc_append, le→ltb}
use hydr.Base.Results.{Text, ok, index, slice_middle, slice_from_append, index_append}
use hydr.Base.Utf8.{Utf8}
use hydr.Varint.{encode_varint, encode_varint_len}
use hydr.Varint.Encode.{encode_varint-append, length-encode_varint}
use hydr.Varint.Decode.{decode-encode_small}
use hydr.Varint.Bytes.{IsU64, be_bytes, from_be-be_bytes_two, length-be_bytes}
use hydr.Address.{
  IpAddr, v4, v6, Address, ip, domain, encode, port_at, decode_ip, decode_domain, decode, IsAddress,
  name_length,
}

port_at_append :
    (front : List ℕ) (p : ℕ) (back : List ℕ)
    → p < 2 ^ 16
    → port_at (front ++ (be_bytes 2 p ++ back)) (length front) ≡ ok p
unfolding port_at be_bytes
port_at_append front p back h =
    let hi = p / 256 ^ 1 % 256 in
    let lo = p / 256 ^ 0 % 256 in
    let width : length (front ++ (hi ∷ [])) ≡ length front + 1 =
      omega (arith, length-append front (hi ∷ [])) in
    let second : index (front ++ (hi ∷ (lo ∷ back))) (length front + 1) ≡ ok lo =
      rw (snoc_append front hi (lo ∷ back), width) at (index_append (front ++ (hi ∷ [])) lo back) in
    rw (index_append front hi (lo ∷ back), second) (ap ok (from_be-be_bytes_two p h))

decode_ip_lem :
    (n kind : ℕ) (make : List ℕ → IpAddr) (octets : List ℕ) (p : ℕ) (rest : List ℕ)
    → length octets ≡ n
    → p < 2 ^ 16
    → decode_ip n make (kind ∷ (octets ++ (be_bytes 2 p ++ rest))) ≡ ok (ip (make octets) p, n + 3)
unfolding decode_ip
decode_ip_lem n kind make octets p rest e h =
    let at : n + 1 ≡ 1 + length octets = omega arith in
    let at' : 1 + length octets ≡ suc (length octets) = omega arith in
    let fits : n + 3 ≤ suc (length (octets ++ (be_bytes 2 p ++ rest))) = omega (
      arith,
      e,
      length-append octets (be_bytes 2 p ++ rest),
      length-append (be_bytes 2 p) rest,
      length-be_bytes 2 p,
    ) in
    rw (
      le→ltb _ (n + 3) fits,
      at,
      slice_middle (kind ∷ []) octets (be_bytes 2 p ++ rest),
      at',
      port_at_append (kind ∷ octets) p rest h,
    )

octets_length :
    (octets : List ℕ) (p : ℕ) {n : ℕ}
    → length octets ≡ n
    → n + 3 ≡ suc (length (octets ++ be_bytes 2 p))
octets_length octets p e =
    omega (arith, e, length-append octets (be_bytes 2 p), length-be_bytes 2 p)

module _ (u : Utf8) where
  open u use {IsText, from_utf8_lossy, lossy_text}

  decode_domain_lem :
      (kind : ℕ) (d : Text) (p : ℕ) (rest : List ℕ)
      → IsText d
      → length d < 2 ^ 62
      → p < 2 ^ 16
      → decode_domain u (kind ∷ (encode_varint [] (length d) ++ (d ++ (be_bytes 2 p ++ rest))))
        ≡ ok (domain d p, 1 + encode_varint_len (length d) + length d + 2)
  unfolding decode_domain
  decode_domain_lem kind d p rest t short h =
      let size = encode_varint [] (length d) in
      let n = encode_varint_len (length d) in
      let back = be_bytes 2 p ++ rest in
      let fits : IsU64 (length d) = omega (arith, short) in
      let width = (length-encode_varint (length d) fits).0 in
      let at : 1 + n ≡ length (kind ∷ size) = omega (arith, width) in
      let end : length (kind ∷ size) + length d ≡ length ((kind ∷ size) ++ d) =
        omega (arith, length-append (kind ∷ size) d) in
      let enough : 1 + n + length d + 2 ≤ length ((kind ∷ size) ++ (d ++ back)) = omega (
        arith,
        width,
        length-append (kind ∷ size) (d ++ back),
        length-append d back,
        length-append (be_bytes 2 p) rest,
        length-be_bytes 2 p,
      ) in
      let port_read : port_at ((kind ∷ size) ++ (d ++ back)) (length (kind ∷ size) + length d)
          ≡ ok p =
        rw (end, ← append_assoc (kind ∷ size) d back)
          (port_at_append ((kind ∷ size) ++ d) p rest h) in
      rw (
        slice_from_append (kind ∷ []) (size ++ (d ++ back)),
        decode-encode_small (length d) (d ++ back) short,
        le→ltb _ _ enough,
        at,
        slice_middle (kind ∷ size) d back,
        port_read,
        lossy_text d t,
      )

  -- An encoded address, whatever follows it, is read back whole, with its exact length.
  pub decode-encode_address :
      (a : Address) (rest : List ℕ)
      → IsAddress u a
      → name_length a < 2 ^ 62
      → decode u (encode [] a ++ rest) ≡ ok (a, length (encode [] a))
  unfolding decode encode
  decode-encode_address (ip (v4 octets) p) rest (e, _, h) _ =
      rw (append_assoc (0x01 ∷ octets) (be_bytes 2 p) rest) (
        decode_ip_lem 4 0x01 v4 octets p rest e h
        ∙ ap (λ n. ok (ip (v4 octets) p, n)) (octets_length octets p e))
  decode-encode_address (ip (v6 octets) p) rest (e, _, h) _ =
      rw (append_assoc (0x02 ∷ octets) (be_bytes 2 p) rest) (
        decode_ip_lem 16 0x02 v6 octets p rest e h
        ∙ ap (λ n. ok (ip (v6 octets) p, n)) (octets_length octets p e))
  decode-encode_address (domain d p) rest h short =
      let size = encode_varint [] (length d) in
      let fits : IsU64 (length d) = omega (arith, short) in
      let total : 1 + encode_varint_len (length d) + length d + 2
          ≡ length ((0x03 ∷ (size ++ d)) ++ be_bytes 2 p) =
        omega (
          arith,
          (length-encode_varint (length d) fits).0,
          length-append (0x03 ∷ (size ++ d)) (be_bytes 2 p),
          length-append size d,
          length-be_bytes 2 p,
        ) in
      rw
        (
          encode_varint-append (0x03 ∷ []) (length d) fits,
          append_assoc (0x03 ∷ (size ++ d)) (be_bytes 2 p) rest,
          append_assoc size d,
        )
        (decode_domain_lem 0x03 d p rest h.0 short h.1 ∙ ap (λ n. ok (domain d p, n)) total)

-- The encoder appends to the buffer.
pub encode-append :
    (buf : List ℕ) (a : Address) → name_length a < 2 ^ 64 → encode buf a ≡ buf ++ encode [] a
unfolding encode
encode-append buf (ip (v4 octets) p) _ = simp append_assoc
encode-append buf (ip (v6 octets) p) _ = simp append_assoc
encode-append buf (domain d p) h =
    let fits : IsU64 (length d) = h in
    let size = encode_varint [] (length d) in
    rw
      (
        encode_varint-append (buf ++ (0x03 ∷ [])) (length d) fits,
        encode_varint-append (0x03 ∷ []) (length d) fits,
      )
      (simp append_assoc)
