-- ===== src/Fingerprint/RoundTrip.antt =====
-- A printed fingerprint is read back, and what is read is a SHA-256 value.
use hydr.Base.{
  ℕ, ◌*◌, ◌/◌, ◌%◌, ◌<◌, ◌≡◌, refl, ap, ap₂, arith, List, [], ◌∷◌, true, false, some, length, All,
}
use hydr.Base.{◌==◌}
use hydr.Varint.Bytes.{IsByte}
use hydr.Fingerprint.{
  hex_digit, hex_encode, is_hexdigit, digit_value, without_colons, all_hex, chunk_values,
  parse_fingerprint,
}

-- A digit is printed as a hexadecimal character, no colon, that stands for it.
hex_digit-facts :
    (d : ℕ)
    → d < 16
    → ((hex_digit d == 58) ≡ false)
      × (is_hexdigit (hex_digit d) ≡ true)
      × (digit_value (hex_digit d) ≡ d)
unfolding hex_digit is_hexdigit digit_value
hex_digit-facts d h = (ground arith, ground arith, ground arith)

without_colons-hex_encode :
    (bs : List ℕ) → All IsByte bs → without_colons (hex_encode bs) ≡ hex_encode bs
unfolding without_colons hex_encode
without_colons-hex_encode [] h = refl
without_colons-hex_encode (b ∷ bs) h =
    let (high, _, _) = hex_digit-facts (b / 16) (omega (arith, h.0)) in
    let (low, _, _) = hex_digit-facts (b % 16) (omega arith) in
    rw (high, low)
      (ap (λ cs. hex_digit (b / 16) ∷ (hex_digit (b % 16) ∷ cs)) (without_colons-hex_encode bs h.1))

all_hex-hex_encode : (bs : List ℕ) → All IsByte bs → all_hex (hex_encode bs) ≡ true
unfolding all_hex hex_encode
all_hex-hex_encode [] h = refl
all_hex-hex_encode (b ∷ bs) h =
    let (_, high, _) = hex_digit-facts (b / 16) (omega (arith, h.0)) in
    let (_, low, _) = hex_digit-facts (b % 16) (omega arith) in
    rw (high, low) (all_hex-hex_encode bs h.1)

length-hex_encode : (bs : List ℕ) → length (hex_encode bs) ≡ length bs * 2
unfolding hex_encode
length-hex_encode [] = refl
length-hex_encode (b ∷ bs) = omega (arith, length-hex_encode bs)

chunk_values-hex_encode : (bs : List ℕ) → All IsByte bs → chunk_values (hex_encode bs) ≡ bs
unfolding chunk_values hex_encode
chunk_values-hex_encode [] h = refl
chunk_values-hex_encode (b ∷ bs) h =
    let (_, _, high) = hex_digit-facts (b / 16) (omega (arith, h.0)) in
    let (_, _, low) = hex_digit-facts (b % 16) (omega arith) in
    ap₂ ◌∷◌ (omega (arith, high, low)) (chunk_values-hex_encode bs h.1)

-- A printed fingerprint of 32 bytes is read back as it was.
pub parse_fingerprint-hex_encode :
    (bs : List ℕ) → length bs ≡ 32 → All IsByte bs → parse_fingerprint (hex_encode bs) ≡ some bs
unfolding parse_fingerprint
parse_fingerprint-hex_encode bs size h =
    let long : (length (hex_encode bs) == 64) ≡ true = ground (arith, length-hex_encode bs, size) in
    rw (without_colons-hex_encode bs h, long, all_hex-hex_encode bs h)
      (ap some (chunk_values-hex_encode bs h))
