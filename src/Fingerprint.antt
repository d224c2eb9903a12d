-- ===== src/Fingerprint.antt =====
-- The fingerprints of certificates in crates/hydr-transport/src/tls.rs: printing and reading of the
-- pinned SHA-256. A `&str` is its bytes, and only ASCII characters can pass the checks. The set-up of
-- rustls around them is not modelled.
pub mod RoundTrip
pub mod Verify
use hydr.Base.{
  ℕ, ◌+◌, ◌-◌, ◌*◌, ◌/◌, ◌%◌, List, [], ◌∷◌, Bool, true, false, Option, none, some, length, ltb,
  leb, ◌==◌, ◌&&◌, ◌||◌,
}
use hydr.Base.{if◌then◌else◌}
use hydr.Base.Results.{Text, text, Result, ok, err, invalid_data}

-- One digit of `{b:02x}`.
unfoldable pub hex_digit : ℕ → ℕ
hex_digit d = if ltb d 10 then 48 + d else 87 + d

unfoldable pub hex_encode : List ℕ → Text
unfolding hex_digit
hex_encode [] = []
hex_encode (b ∷ bs) = hex_digit (b / 16) ∷ (hex_digit (b % 16) ∷ hex_encode bs)

-- `u8::is_ascii_hexdigit`
unfoldable pub is_hexdigit : ℕ → Bool
is_hexdigit c = (leb 48 c && leb c 57) || ((leb 65 c && leb c 70) || (leb 97 c && leb c 102))

-- The value of a digit of `u8::from_str_radix(…, 16)`.
unfoldable pub digit_value : ℕ → ℕ
digit_value c = if leb c 57 then c - 48 else if leb c 70 then c - 55 else c - 87

-- `chars().filter(|c| *c != ':')`
unfoldable pub without_colons : Text → Text
without_colons [] = []
without_colons (c ∷ cs) = let rest = without_colons cs in if c == 58 then rest else c ∷ rest

unfoldable pub all_hex : Text → Bool
unfolding is_hexdigit
all_hex [] = true
all_hex (c ∷ cs) = is_hexdigit c && all_hex cs

-- The loop over `chunks(2)`; a last chunk of one digit does not arise from an even length.
unfoldable pub chunk_values : Text → List ℕ
unfolding digit_value
chunk_values [] = []
chunk_values (c ∷ []) = digit_value c ∷ []
chunk_values (c ∷ (d ∷ cs)) = (digit_value c * 16 + digit_value d) ∷ chunk_values cs

unfoldable pub parse_fingerprint : Text → Option (List ℕ)
unfolding without_colons all_hex chunk_values
parse_fingerprint s =
    let clean = without_colons s in
    if (length clean == 64) && all_hex clean then some (chunk_values clean) else none

unfoldable pub require_fingerprint : Option Text → Result (Option (List ℕ))
unfolding parse_fingerprint
require_fingerprint none = ok none
require_fingerprint (some s) = elim (parse_fingerprint s) [
  | some pin ↦ ok (some pin)
  | none ↦ err (invalid_data (text "invalid certificate fingerprint: expected 64 hex characters"))
]
