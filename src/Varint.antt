-- ===== src/Varint.antt =====
-- crates/hydr-core/src/varint.rs: integers of 62 bits in 1, 2, 4 or 8 bytes. A byte slice is a list
-- of numbers below 256, a u64 is a number below 2 ^ 64.
pub mod Bytes
pub mod Encode
pub mod Decode
use hydr.Base.{ℕ, zero, suc, ◌+◌, ◌*◌, ◌/◌, ◌%◌, ◌^◌, bit_and, bit_or, List, [], ◌∷◌, ◌++◌}
use hydr.Base.{ltb, if◌then◌else◌, length, drop, get_elem?}
use hydr.Base.Results.{Result, ok, err, unexpected_eof, ◌>>=◌, ok_or, slice}
use Bytes.{push, extend, be_bytes}

unfoldable pub max_varint : ℕ
max_varint = 8

unfoldable pub encode_varint : List ℕ → ℕ → List ℕ
encode_varint buf v =
    if ltb v (2 ^ 6)
    then push buf (v % 256)
    else if ltb v (2 ^ 14)
    then push (push buf (bit_or (v / 2 ^ 8 % 256) 0x40)) (v % 256)
    else if ltb v (2 ^ 30)
    then extend (push buf (bit_or (v / 2 ^ 24 % 256) 0x80)) (drop 1 (be_bytes 4 (v % 2 ^ 32)))
    else extend (push buf (bit_or (v / 2 ^ 56 % 256) 0xc0)) (drop 1 (be_bytes 8 v))

unfoldable pub encode_varint_len : ℕ → ℕ
encode_varint_len v =
    if ltb v (2 ^ 6) then 1 else if ltb v (2 ^ 14) then 2 else if ltb v (2 ^ 30) then 4 else 8

-- `for &b in … { v = (v << 8) | b }` on a u64.
unfoldable pub shift_in : ℕ → List ℕ → ℕ
shift_in v [] = v
shift_in v (b ∷ bs) = shift_in (bit_or (v * 2 ^ 8 % 2 ^ 64) b) bs

unfoldable pub decode_varint : List ℕ → Result (ℕ × ℕ)
decode_varint buf = do
  first ← ok_or (get_elem? buf 0) unexpected_eof
  let tag = first / 2 ^ 6
  let len = 2 ^ tag
  if ltb (length buf) len
      then err unexpected_eof
      else do tail ← slice buf 1 len; ok (shift_in (bit_and first 0x3f) tail, len)
