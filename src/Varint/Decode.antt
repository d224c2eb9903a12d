-- ===== src/Varint/Decode.antt =====
-- What `decode_varint` reads, on encodings and on any input.
use hydr.Base.{ℕ, zero, suc, ◌+◌, ◌-◌, ◌*◌, ◌/◌, ◌%◌, ◌^◌, ◌≤◌, ◌<◌, ◌≡◌, ◌∙◌, arith}
use hydr.Base.{List, [], ◌∷◌, ◌++◌, length, All, length-append, take, le→ltb}
use hydr.Base.{take-append, lt→ltb, length-take}
use hydr.Base.{All-take}
use hydr.Base.Bits.{bit_and_63}
use hydr.Base.Numbers.{le_mul, mul_mono, pow_pos}
use hydr.Base.Results.{ok, err, unexpected_eof, Returns, slice_in_range}
use hydr.Varint.Bytes.{IsByte, IsU64, be_bytes, length-be_bytes}
use hydr.Varint.{encode_varint, encode_varint_len, shift_in, decode_varint}
use hydr.Varint.Encode.{shape, shift_in_step}
use native.Mathlib.Decide.{dec_lt}

-- A lead byte that announces the bytes behind it.
decode_varint-cons :
    (b : ℕ) (tail rest : List ℕ)
    → b < 256
    → 2 ^ (b / 2 ^ 6) ≡ suc (length tail)
    → decode_varint (b ∷ (tail ++ rest)) ≡ ok (shift_in (b % 64) tail, suc (length tail))
unfolding decode_varint
decode_varint-cons b tail rest h e =
    let fits : length tail ≤ length (tail ++ rest) = omega (arith, length-append tail rest) in
    let width : suc (length tail) - 1 ≡ length tail = omega arith in
    rw (
      e,
      le→ltb (suc (length (tail ++ rest))) (suc (length tail)) (omega arith),
      slice_in_range (b ∷ (tail ++ rest)) 1 (suc (length tail)) (omega arith) (omega arith),
      bit_and_63 b h,
      width,
      take-append tail rest,
    )

-- The decoder reads back what the encoder wrote, modulo 2 ^ 62, and leaves what follows.
pub decode_varint-encode_varint :
    (v : ℕ) (rest : List ℕ)
    → IsU64 v
    → decode_varint (encode_varint [] v ++ rest) ≡ ok (v % 2 ^ 62, encode_varint_len v)
decode_varint-encode_varint v rest h =
    let s = shape v h in
    let w = length-be_bytes s.more v in
    rw (s.writes [], s.len)
      (decode_varint-cons s.lead (be_bytes s.more v) rest s.lead-IsByte (rw w s.count)
        ∙ rw (w, s.value))

pub decode-encode_small :
    (v : ℕ) (rest : List ℕ)
    → v < 2 ^ 62
    → decode_varint (encode_varint [] v ++ rest) ≡ ok (v, encode_varint_len v)
decode-encode_small v rest h =
    let e : v % 2 ^ 62 ≡ v = omega arith in rw (decode_varint-encode_varint v rest (omega arith), e)

-- The two top bits of the first byte choose one of four lengths.
pub tag_bounds : (t : ℕ) → t < 4 → (1 ≤ 2 ^ t) × (2 ^ t ≤ 8) × (64 * 256 ^ (2 ^ t - 1) ≤ 2 ^ 62)
tag_bounds zero h = omega arith
tag_bounds (suc zero) h = omega arith
tag_bounds (suc (suc zero)) h = omega arith
tag_bounds (suc (suc (suc zero))) h = omega arith
tag_bounds (suc (suc (suc (suc t)))) h = absurd (omega arith)

-- The loop stays below 2 ^ 62, so that no bit is shifted out.
shift_in-lt :
    (w : ℕ) (bs : List ℕ)
    → All IsByte bs
    → (w + 1) * 256 ^ length bs ≤ 2 ^ 62
    → shift_in w bs < (w + 1) * 256 ^ length bs
shift_in-lt w [] h k = unfold shift_in in omega arith
shift_in-lt w (b ∷ bs) h k =
    let p = 256 ^ length bs in
    let e : 256 ^ suc (length bs) ≡ 256 * p = omega arith in
    let whole : (w + 1) * 256 ^ suc (length bs) ≡ (w + 1) * 256 * p = rw e (omega arith) in
    let below = mul_mono (w * 256 + b + 1) ((w + 1) * 256) p (omega arith) in
    let small : w < 2 ^ 56 =
      omega (arith, le_mul ((w + 1) * 256) p (pow_pos (length bs)), whole, k) in
    rw (shift_in_step w b bs small h.0) (
      omega
        (arith, below, whole, shift_in-lt (w * 256 + b) bs h.1 (omega (arith, below, whole, k))))

-- A number below 2 ^ 62 and a count of bytes that the buffer holds.
abbrev pub Decoded : List ℕ → ℕ × ℕ → Type 0
Decoded buf p = (p.0 < 2 ^ 62) × (1 ≤ p.1) × (p.1 ≤ length buf)

-- On every buffer of bytes the decoder returns a 62-bit number and a length within the buffer, or
-- an error: no index and no slice is out of range.
pub decode_varint-Returns :
    (buf : List ℕ) → All IsByte buf → Returns (Decoded buf) (decode_varint buf)
unfolding decode_varint
decode_varint-Returns [] h = tt
decode_varint-Returns (b ∷ bs) h =
    let n = 2 ^ (b / 2 ^ 6) in
    let bounds = tag_bounds (b / 2 ^ 6) (omega arith) in
    elim (dec_lt (suc (length bs)) n) [
      | yes short ↦ rw (lt→ltb (suc (length bs)) n short) tt
      | no enough ↦
          let width : length (take (n - 1) bs) ≡ n - 1 = length-take (n - 1) bs (omega arith) in
          let room : (b % 64 + 1) * 256 ^ length (take (n - 1) bs) ≤ 64 * 256 ^ (n - 1) =
            rw width (mul_mono (b % 64 + 1) 64 (256 ^ (n - 1)) (omega arith)) in
          let low =
            shift_in-lt (b % 64) (take (n - 1) bs) (All-take IsByte (n - 1) bs h.1)
              (omega (arith, room, bounds.2)) in
          rw
            (
              le→ltb (suc (length bs)) n (omega arith),
              slice_in_range (b ∷ bs) 1 n bounds.0 (omega arith),
              bit_and_63 b h.0,
            )
            (omega (arith, low, room, bounds.2), bounds.0, omega arith)
    ]

-- A buffer that ends inside a number is reported as such.
pub decode_varint-truncated :
    (b : ℕ) (bs : List ℕ)
    → suc (length bs) < 2 ^ (b / 2 ^ 6)
    → decode_varint (b ∷ bs) ≡ err unexpected_eof
unfolding decode_varint
decode_varint-truncated b bs h = rw (lt→ltb (suc (length bs)) _ h)
