-- ===== src/Varint/Encode.antt =====
-- What `encode_varint` writes: a lead byte with the length in its two top bits, and the low bytes.
use hydr.Base.{ℕ, zero, suc, ◌+◌, ◌*◌, ◌/◌, ◌%◌, ◌^◌, ◌≤◌, ◌<◌, ◌≡◌, ◌∙◌, arith, ap}
use hydr.Base.{List, [], ◌∷◌, ◌++◌, append_assoc, length, All}
use hydr.Base.{lt→ltb, le→ltb}
use native.Mathlib.Decide.{dec_lt}
use hydr.Base.Bits.{bit_or_64, bit_or_128, bit_or_192, bit_or-shift}
use hydr.Base.Numbers.{le_mul, mul_mono, pow_pos, mod_split}
use hydr.Varint.Bytes.{IsByte, IsU64, be_bytes, length-be_bytes, be_bytes-IsByte}
use hydr.Varint.{encode_varint, encode_varint_len, shift_in}

-- One round of the decoder's loop where no bit is shifted out.
pub shift_in_step :
    (v b : ℕ) (bs : List ℕ) → v < 2 ^ 56 → b < 256 → shift_in v (b ∷ bs) ≡ shift_in (v * 256 + b) bs
unfolding shift_in
shift_in_step v b bs h k =
    let e : v * 2 ^ 8 % 2 ^ 64 ≡ v * 2 ^ 8 = omega arith in
    ap (λ t. shift_in t bs) (rw e (bit_or-shift 8 v b k))

shift_in-be_bytes :
    (k w v : ℕ) → (w + 1) * 256 ^ k ≤ 2 ^ 62 → shift_in w (be_bytes k v) ≡ w * 256 ^ k + v % 256 ^ k
unfolding be_bytes
shift_in-be_bytes zero w v h = unfold shift_in in omega arith
shift_in-be_bytes (suc k) w v h =
    let p = 256 ^ k in
    let b = v / p % 256 in
    let e : 256 ^ suc k ≡ 256 * p = omega arith in
    let whole : (w + 1) * 256 ^ suc k ≡ (w + 1) * 256 * p = rw e (omega arith) in
    let small : w < 2 ^ 56 = omega (arith, le_mul ((w + 1) * 256) p (pow_pos k), whole, h) in
    let room : (w * 256 + b + 1) * p ≤ 2 ^ 62 =
      omega (arith, mul_mono (w * 256 + b + 1) ((w + 1) * 256) p (omega arith), whole, h) in
    shift_in_step w b (be_bytes k v) small (omega arith)
    ∙ shift_in-be_bytes k (w * 256 + b) v room
    ∙ omega (arith, mod_split v p (pow_pos k), ap (λ t. v % t) e, ap (λ t. w * t) e)

-- All that the decoder and the message codecs need to know of an encoding.
pub record Shape (v : ℕ) : Type 0 where
  pub lead : ℕ
  pub more : ℕ
  pub writes : (buf : List ℕ) → encode_varint buf v ≡ buf ++ (lead ∷ be_bytes more v)
  pub lead-IsByte : IsByte lead
  pub count : 2 ^ (lead / 2 ^ 6) ≡ suc more
  pub len : encode_varint_len v ≡ suc more
  pub value : shift_in (lead % 64) (be_bytes more v) ≡ v % 2 ^ 62

Shape-one : (v : ℕ) → v < 2 ^ 6 → Shape v
unfolding encode_varint encode_varint_len be_bytes shift_in
Shape-one v h = record {
  lead = v;
  more = 0;
  writes = λ buf. let e : v % 256 ≡ v = omega arith in rw (lt→ltb v _ h, e);
  lead-IsByte = omega arith;
  count = let e : v / 2 ^ 6 ≡ 0 = omega arith in rw e;
  len = rw (lt→ltb v _ h);
  value = omega arith;
}

Shape-two : (v : ℕ) → 2 ^ 6 ≤ v → v < 2 ^ 14 → Shape v
unfolding encode_varint encode_varint_len be_bytes
Shape-two v h k =
    let e : v / 2 ^ 8 % 256 ≡ v / 2 ^ 8 = omega arith in
    let one : v / 1 ≡ v = omega arith in
    record {
      lead = v / 2 ^ 8 + 64;
      more = 1;
      writes = λ buf.
          rw (le→ltb v _ h, lt→ltb v _ k, e, bit_or_64 (v / 2 ^ 8) (omega arith), one)
            (append_assoc buf _ _);
      lead-IsByte = omega arith;
      count = let d : (v / 2 ^ 8 + 64) / 2 ^ 6 ≡ 1 = omega arith in rw d;
      len = rw (le→ltb v _ h, lt→ltb v _ k);
      value = shift_in-be_bytes 1 _ v (omega arith) ∙ omega arith;
    }

Shape-four : (v : ℕ) → 2 ^ 14 ≤ v → v < 2 ^ 30 → Shape v
unfolding encode_varint encode_varint_len be_bytes
Shape-four v h k =
    let e : v / 2 ^ 24 % 256 ≡ v / 2 ^ 24 = omega arith in
    let cut : v % 2 ^ 32 ≡ v = omega arith in
    record {
      lead = v / 2 ^ 24 + 128;
      more = 3;
      writes = λ buf.
          rw
            (
              le→ltb v (2 ^ 6) (omega arith),
              le→ltb v (2 ^ 14) h,
              lt→ltb v (2 ^ 30) k,
              e,
              bit_or_128 (v / 2 ^ 24) (omega arith),
              cut,
            )
            (append_assoc buf _ _);
      lead-IsByte = omega arith;
      count = let d : (v / 2 ^ 24 + 128) / 2 ^ 6 ≡ 2 = omega arith in rw d;
      len = rw (le→ltb v (2 ^ 6) (omega arith), le→ltb v (2 ^ 14) h, lt→ltb v (2 ^ 30) k);
      value = shift_in-be_bytes 3 _ v (omega arith) ∙ omega arith;
    }

-- The two top bits of a number beyond 62 bits are overwritten by the tag.
Shape-eight : (v : ℕ) → 2 ^ 30 ≤ v → v < 2 ^ 64 → Shape v
unfolding encode_varint encode_varint_len be_bytes
Shape-eight v h k =
    let e : v / 2 ^ 56 % 256 ≡ v / 2 ^ 56 = omega arith in
    record {
      lead = v / 2 ^ 56 % 64 + 192;
      more = 7;
      writes = λ buf.
          rw
            (
              le→ltb v (2 ^ 6) (omega arith),
              le→ltb v (2 ^ 14) (omega arith),
              le→ltb v (2 ^ 30) h,
              e,
              bit_or_192 (v / 2 ^ 56) (omega arith),
            )
            (append_assoc buf _ _);
      lead-IsByte = omega arith;
      count = let d : (v / 2 ^ 56 % 64 + 192) / 2 ^ 6 ≡ 3 = omega arith in rw d;
      len =
          rw (le→ltb v (2 ^ 6) (omega arith), le→ltb v (2 ^ 14) (omega arith), le→ltb v (2 ^ 30) h);
      value = shift_in-be_bytes 7 _ v (omega arith) ∙ omega arith;
    }

pub shape : (v : ℕ) → IsU64 v → Shape v
shape v h = elim (dec_lt v (2 ^ 6)) [
  | yes a ↦ Shape-one v a
  | no a ↦ elim (dec_lt v (2 ^ 14)) [
    | yes b ↦ Shape-two v (omega arith) b
    | no b ↦ elim (dec_lt v (2 ^ 30)) [
      | yes c ↦ Shape-four v (omega arith) c
      | no c ↦ Shape-eight v (omega arith) h
    ]
  ]
]

-- The encoder appends.
pub encode_varint-append :
    (buf : List ℕ) (v : ℕ) → IsU64 v → encode_varint buf v ≡ buf ++ encode_varint [] v
encode_varint-append buf v h = let s = shape v h in rw (s.writes buf, s.writes [])

-- On every u64 the encoder writes as many bytes as `encode_varint_len` says, and each is a byte.
pub length-encode_varint :
    (v : ℕ)
    → IsU64 v
    → (length (encode_varint [] v) ≡ encode_varint_len v) × All IsByte (encode_varint [] v)
length-encode_varint v h =
    let s = shape v h in
    rw (s.writes [], s.len)
      (ap suc (length-be_bytes s.more v), (s.lead-IsByte, be_bytes-IsByte s.more v))

pub encode_varint_len_bounds : (v : ℕ) → (1 ≤ encode_varint_len v) × (encode_varint_len v ≤ 8)
unfolding encode_varint_len
encode_varint_len_bounds v = ground arith
