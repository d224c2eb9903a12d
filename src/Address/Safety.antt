-- ===== src/Address/Safety.antt =====
-- The address decoder on any input.
use hydr.Base.{ℕ, ◌+◌, ◌-◌, ◌*◌, ◌<◌, ◌≤◌, ◌^◌, ◌≡◌, ◌∙◌, arith, List, [], ◌∷◌}
use hydr.Base.{length, All, le→ltb, lt→ltb, take, drop}
use hydr.Base.{
  length-take, length-drop, All-take, All-drop, All-get_elem?, ◌==◌, Bool-cases, inl, inr,
}
use hydr.Base.Results.{
  ok, slice_in_range, slice_from_in_range, index_in_range, Returns, Returns->>=,
}
use hydr.Base.Utf8.{Utf8}
use hydr.Varint.{decode_varint}
use hydr.Varint.Decode.{Decoded, decode_varint-Returns}
use hydr.Varint.Bytes.{IsByte, from_be_bytes}
use hydr.Address.{IpAddr, v4, v6, Address, ip, port_at, decode_ip, decode_domain, decode, IsAddress}
use native.Mathlib.Decide.{dec_lt}

port_at-Returns :
    (buf : List ℕ) (i : ℕ)
    → All IsByte buf
    → i + 2 ≤ length buf
    → (p : ℕ) × (port_at buf i ≡ ok p) × (p < 2 ^ 16)
unfolding port_at from_be_bytes
port_at-Returns buf i bytes h =
    let (hi, at_hi, read_hi) = index_in_range buf i (omega arith) in
    let (lo, at_lo, read_lo) = index_in_range buf (i + 1) (omega arith) in
    let p : ℕ = (0 * 256 + hi) * 256 + lo in
    (
      p,
      rw (read_hi, read_lo),
      omega (
        arith,
        All-get_elem? IsByte buf i hi at_hi bytes,
        All-get_elem? IsByte buf (i + 1) lo at_lo bytes,
      ),
    )

module _ (u : Utf8) where
  open u use {from_utf8_lossy, lossy-IsText}

  -- What a successful decode returns: an address of the Rust type, and a count of bytes within the
  -- buffer.
  abbrev pub Reads : List ℕ → Address × ℕ → Type 0
  Reads buf (a, used) = IsAddress u a × (0 < used) × (used ≤ length buf)

  decode_ip-Returns :
      (n : ℕ) (make : List ℕ → IpAddr) (buf : List ℕ)
      → All IsByte buf
      → ((octets : List ℕ) (p : ℕ)
          → length octets ≡ n
          → All IsByte octets
          → p < 2 ^ 16
          → IsAddress u (ip (make octets) p))
      → Returns (Reads buf) (decode_ip n make buf)
  unfolding decode_ip
  decode_ip-Returns n make buf bytes valid = elim (dec_lt (length buf) (n + 3)) [
    | yes short ↦ rw (lt→ltb _ _ short) tt
    | no long ↦
        let (p, read, small) = port_at-Returns buf (n + 1) bytes (omega arith) in
        let octets = take (n + 1 - 1) (drop 1 buf) in
        let width : length octets ≡ n =
          length-take (n + 1 - 1) (drop 1 buf) (omega (arith, length-drop 1 buf)) ∙ omega arith in
        let octets-IsByte =
          All-take IsByte (n + 1 - 1) (drop 1 buf) (All-drop IsByte 1 buf bytes) in
        rw
          (
            le→ltb (length buf) (n + 3) (omega arith),
            slice_in_range buf 1 (n + 1) (omega arith) (omega arith),
            read,
          )
          (valid octets p width octets-IsByte small, omega arith, omega arith)
  ]

  decode_domain-Returns :
      (buf : List ℕ) → All IsByte buf → 0 < length buf → Returns (Reads buf) (decode_domain u buf)
  unfolding decode_domain
  decode_domain-Returns buf bytes h = rw (slice_from_in_range buf 1 h) (
      Returns->>= (Decoded (drop 1 buf)) (Reads buf) (decode_varint (drop 1 buf)) _
        (decode_varint-Returns (drop 1 buf) (All-drop IsByte 1 buf bytes))
        λ (len, used) d. elim (dec_lt (length buf) (1 + used + len + 2)) [
          | yes short ↦ rw (lt→ltb _ _ short) tt
          | no long ↦
              let (p, read, small) = port_at-Returns buf (1 + used + len) bytes (omega arith) in
              rw
                (
                  le→ltb (length buf) (1 + used + len + 2) (omega arith),
                  slice_in_range buf (1 + used) (1 + used + len) (omega arith) (omega arith),
                  read,
                )
                ((lossy-IsText _, small), omega arith, omega arith)
        ])

  -- On every buffer of bytes the decoder returns an address and a count within the buffer, or an
  -- error; it never panics.
  pub decode-Returns_address : (buf : List ℕ) → All IsByte buf → Returns (Reads buf) (decode u buf)
  unfolding decode
  decode-Returns_address [] bytes = tt
  decode-Returns_address (b ∷ bs) bytes = elim (Bool-cases (b == 0x01)) [
    | inl four ↦
        rw four (decode_ip-Returns 4 v4 (b ∷ bs) bytes (λ octets p e o small. (e, o, small)))
    | inr not_four ↦ elim (Bool-cases (b == 0x02)) [
      | inl six ↦
          rw (not_four, six)
            (decode_ip-Returns 16 v6 (b ∷ bs) bytes (λ octets p e o small. (e, o, small)))
      | inr not_six ↦ elim (Bool-cases (b == 0x03)) [
        | inl name ↦
            rw (not_four, not_six, name) (decode_domain-Returns (b ∷ bs) bytes (omega arith))
        | inr other ↦ rw (not_four, not_six, other) tt
      ]
    ]
  ]
