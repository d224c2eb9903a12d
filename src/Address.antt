-- ===== src/Address.antt =====
-- crates/hydr-core/src/address.rs: a target address and its wire form. The two arms for IP addresses
-- are one function here, at 4 and at 16 octets. `decode_varint` returns less than 2 ^ 62 and a slice is
-- shorter than 2 ^ 63, so that `start + len + 2` does not wrap.
pub mod RoundTrip
pub mod Safety
use hydr.Base.{ℕ, ◌+◌, ◌<◌, ◌^◌, ◌≡◌, List, [], ◌∷◌, ◌++◌, length, get_elem?, All}
use hydr.Base.{ltb, ◌==◌, if◌then◌else◌}
use hydr.Base.Results.{Text, text, Result, ok, err, unexpected_eof, invalid_data, ◌>>=◌, ok_or}
use hydr.Base.Results.{index, slice, slice_from}
use hydr.Base.Utf8.{Utf8}
use hydr.Varint.{encode_varint, decode_varint}
use hydr.Varint.Bytes.{IsByte, push, extend, be_bytes, from_be_bytes}

-- `std::net::IpAddr`, as its octets.
pub data IpAddr : Type 0 where
  v4 : List ℕ → IpAddr
  v6 : List ℕ → IpAddr

pub data Address : Type 0 where
  ip : IpAddr → ℕ → Address
  domain : Text → ℕ → Address

-- The length that the wire form of the address declares.
abbrev pub name_length : Address → ℕ
name_length (ip a p) = 0
name_length (domain d p) = length d

unfoldable pub port : Address → ℕ
port (ip a p) = p
port (domain d p) = p

abbrev octets_with_port : List ℕ → ℕ → List ℕ → ℕ → List ℕ
octets_with_port buf kind octets p = extend (extend (push buf kind) octets) (be_bytes 2 p)

unfoldable pub encode : List ℕ → Address → List ℕ
encode buf (ip (v4 octets) p) = octets_with_port buf 0x01 octets p
encode buf (ip (v6 octets) p) = octets_with_port buf 0x02 octets p
encode buf (domain d p) =
    extend (extend (encode_varint (push buf 0x03) (length d)) d) (be_bytes 2 p)

-- `buf[i]` and `buf[i + 1]` as a big-endian u16.
unfoldable pub port_at : List ℕ → ℕ → Result ℕ
port_at buf i = do hi ← index buf i; lo ← index buf (i + 1); ok (from_be_bytes (hi ∷ lo ∷ []))

unfoldable pub decode_ip : ℕ → (List ℕ → IpAddr) → List ℕ → Result (Address × ℕ)
decode_ip n make buf =
    if ltb (length buf) (n + 3)
    then err unexpected_eof
    else do octets ← slice buf 1 (n + 1); p ← port_at buf (n + 1); ok (ip (make octets) p, n + 3)

module _ (u : Utf8) where
  open u use {IsText, from_utf8_lossy}

  unfoldable pub decode_domain : List ℕ → Result (Address × ℕ)
  decode_domain buf = do
    rest ← slice_from buf 1
    (len, used) ← decode_varint rest
    let start = 1 + used
    if ltb (length buf) (start + len + 2) then err unexpected_eof else do
      name ← slice buf start (start + len)
      p ← port_at buf (start + len)
      ok (domain (from_utf8_lossy name) p, start + len + 2)

  unfoldable pub decode : List ℕ → Result (Address × ℕ)
  decode buf = do
    ty ← ok_or (get_elem? buf 0) unexpected_eof
    if ty == 0x01
        then decode_ip 4 v4 buf
        else if ty == 0x02
        then decode_ip 16 v6 buf
        else if ty == 0x03
        then decode_domain buf
        else err (invalid_data (text "bad address type"))

  -- The values of the Rust type: octets of the right number, a u16, and a UTF-8 text.
  abbrev pub IsAddress : Address → Type 0
  IsAddress (ip (v4 octets) p) = (length octets ≡ 4) × All IsByte octets × (p < 2 ^ 16)
  IsAddress (ip (v6 octets) p) = (length octets ≡ 16) × All IsByte octets × (p < 2 ^ 16)
  IsAddress (domain d p) = IsText d × (p < 2 ^ 16)
