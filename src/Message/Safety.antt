-- ===== src/Message/Safety.antt =====
-- The message decoders on any input: no index and no slice is out of range.
use hydr.Base.{ℕ, ◌+◌, ◌<◌, ◌≤◌, ◌^◌, ◌≡◌, refl, arith, List, length, All, drop}
use hydr.Base.{le→ltb, lt→ltb, length-drop, All-drop, get_elem?, Option-cases, inl, inr}
use hydr.Base.{lt_of_get_elem?}
use hydr.Base.Results.{
  Result, ok, err, ◌>>=◌, slice_in_range, slice_from_in_range, index_in_range, Returns, Returns->>=,
}
use hydr.Base.Utf8.{Utf8}
use hydr.Varint.{decode_varint}
use hydr.Varint.Decode.{Decoded, decode_varint-Returns}
use hydr.Varint.Bytes.{IsByte}
use hydr.Address
use hydr.Address.{Address}
use hydr.Message.{
  AuthRequest, decode_auth_request, AuthResponse, decode_auth_response, OpenStreamAck,
  decode_open_stream_ack, decode_open_stream, decode_datagram,
}
use hydr.Message.Reader.{Reader, new, u8, varint, take_bytes, bytes}
use native.Mathlib.Decide.{dec_lt}

-- A cursor within a buffer of `n` bytes.
record Good (n : ℕ) (r : Reader) : Type 0 where
  content : All IsByte r.buf
  size : length r.buf ≡ n
  inside : r.pos ≤ n

abbrev GoodNext {ℓ} : {A : Type ℓ} → ℕ → A × Reader → Type 0
GoodNext n p = Good n p.1

new-Good : (buf : List ℕ) → All IsByte buf → Good (length buf) (new buf)
unfolding new
new-Good buf h = record { content = h; size = refl; inside = omega arith }

u8-Good : (n : ℕ) (r : Reader) → Good n r → Returns (GoodNext n) (u8 r)
unfolding u8
u8-Good n r g = elim (Option-cases (get_elem? r.buf r.pos)) [
  | inl e ↦ rw e tt
  | inr (b, e) ↦ rw e (record {
    content = g.content;
    size = g.size;
    inside = omega (arith, lt_of_get_elem? r.buf r.pos b e, g.size);
  })
]

varint-Good :
    (n : ℕ) (r : Reader) → Good n r → Returns (λ p. (p.0 < 2 ^ 62) × Good n p.1) (varint r)
unfolding varint
varint-Good n r g = rw (slice_from_in_range r.buf r.pos (omega (arith, g.size, g.inside))) (
    Returns->>= (Decoded (drop r.pos r.buf)) _ (decode_varint (drop r.pos r.buf)) _
      (decode_varint-Returns _ (All-drop IsByte r.pos r.buf g.content))
      λ (v, used) d. (
        d.0,
        record {
          content = g.content;
          size = g.size;
          inside = omega (arith, d.2, length-drop r.pos r.buf, g.size, g.inside);
        },
      ))

bytes-Good : (n : ℕ) (r : Reader) → Good n r → Returns (GoodNext n) (bytes r)
unfolding bytes take_bytes
bytes-Good n r g = Returns->>= _ (GoodNext n) (varint r) _ (varint-Good n r g) λ (len, r') (_, g').
    elim (dec_lt (length r'.buf) (r'.pos + len)) [
      | yes short ↦ rw (lt→ltb _ _ short) tt
      | no long ↦
          rw
            (
              le→ltb (length r'.buf) (r'.pos + len) (omega arith),
              slice_in_range r'.buf r'.pos (r'.pos + len) (omega arith) (omega arith),
            )
            (record { content = g'.content; size = g'.size; inside = omega (arith, g'.size) })
    ]

-- One field after another.
module _ {ℓ κ} {A : Type ℓ} {B : Type κ} (n : ℕ) (Q : B → Type 0) (f : A × Reader → Result B) where
  then_field :
      (m : Result (A × Reader))
      → Returns (GoodNext n) m
      → ((a : A) (r : Reader) → Good n r → Returns Q (f (a, r)))
      → Returns Q (m >>= f)
  then_field m h k = Returns->>= (GoodNext n) Q m f h (λ p g. k p.0 p.1 g)

varint-GoodNext : (n : ℕ) (r : Reader) → Good n r → Returns (GoodNext n) (varint r)
varint-GoodNext n r g = weaken (varint r) (varint-Good n r g)
  where
    weaken :
        (m : Result (ℕ × Reader))
        → Returns (λ p. (p.0 < 2 ^ 62) × Good n p.1) m
        → Returns (GoodNext n) m
    weaken (ok p) h = h.1
    weaken (err e) h = tt
    weaken Result.panic h = h

-- A count of bytes within the buffer.
abbrev pub Within {ℓ} : {A : Type ℓ} → List ℕ → A × ℕ → Type 0
Within buf p = p.1 ≤ length buf

-- Whatever bytes arrive, the server decodes a request within them or reports an error.
pub auth_request-Returns :
    (buf : List ℕ) → All IsByte buf → Returns (Within buf) (decode_auth_request buf)
unfolding decode_auth_request
auth_request-Returns buf h =
    let n = length buf in
    let Q : AuthRequest × ℕ → Type 0 = Within buf in
    then_field n Q _ _ (varint-GoodNext n _ (new-Good buf h)) λ _ r1 g1.
      then_field n Q _ _ (u8-Good n r1 g1) λ _ r2 g2.
        then_field n Q _ _ (bytes-Good n r2 g2) λ _ r3 g3.
          then_field n Q _ _ (bytes-Good n r3 g3) λ _ r4 g4.
            then_field n Q _ _ (varint-GoodNext n r4 g4) λ _ r5 g5.
              then_field n Q _ _ (u8-Good n r5 g5)
                λ _ r6 g6. then_field n Q _ _ (bytes-Good n r6 g6) λ _ r7 g7. g7.inside

-- The same of the response, on the client.
pub auth_response-Returns :
    (buf : List ℕ) → All IsByte buf → Returns (Within buf) (decode_auth_response buf)
unfolding decode_auth_response
auth_response-Returns buf h =
    let n = length buf in
    let Q : AuthResponse × ℕ → Type 0 = Within buf in
    then_field n Q _ _ (u8-Good n _ (new-Good buf h)) λ _ r1 g1.
      then_field n Q _ _ (u8-Good n r1 g1) λ _ r2 g2.
        then_field n Q _ _ (bytes-Good n r2 g2) λ _ r3 g3.
          then_field n Q _ _ (varint-GoodNext n r3 g3) λ _ r4 g4.
            then_field n Q _ _ (u8-Good n r4 g4)
              λ _ r5 g5. then_field n Q _ _ (bytes-Good n r5 g5) λ _ r6 g6. g6.inside

pub open_stream_ack-Returns :
    (buf : List ℕ) → All IsByte buf → Returns (Within buf) (decode_open_stream_ack buf)
unfolding decode_open_stream_ack
open_stream_ack-Returns buf h =
    let n = length buf in
    let Q : OpenStreamAck × ℕ → Type 0 = Within buf in
    then_field n Q _ _ (u8-Good n _ (new-Good buf h)) λ _ r1 g1.
      then_field n Q _ _ (u8-Good n r1 g1)
        λ _ r2 g2. then_field n Q _ _ (bytes-Good n r2 g2) λ _ r3 g3. g3.inside

module _ (u : Utf8) where
  pub open_stream-Returns :
      (buf : List ℕ) → All IsByte buf → Returns (Within buf) (decode_open_stream u buf)
  unfolding decode_open_stream
  open_stream-Returns buf h =
      Returns->>= (Address.Safety.Reads u buf) _ (Address.decode u buf) _
        (Address.Safety.decode-Returns_address u buf h) λ p r. r.2

  -- The same of a datagram, at either end.
  pub datagram-Returns :
      (buf : List ℕ) → All IsByte buf → Returns (Within buf) (decode_datagram u buf)
  unfolding decode_datagram
  datagram-Returns buf h = elim (dec_lt (length buf) 8) [
    | yes short ↦ rw (lt→ltb _ _ short) tt
    | no long ↦
        let (g, _, read_g) = index_in_range buf 6 (omega arith) in
        let (k, _, read_k) = index_in_range buf 7 (omega arith) in
        rw
          (
            le→ltb (length buf) 8 (omega arith),
            slice_in_range buf 0 4 (omega arith) (omega arith),
            slice_in_range buf 4 6 (omega arith) (omega arith),
            read_g,
            read_k,
            slice_from_in_range buf 8 (omega arith),
          )
          (Returns->>= (Address.Safety.Reads u (drop 8 buf)) _ (Address.decode u (drop 8 buf)) _
            (Address.Safety.decode-Returns_address u (drop 8 buf) (All-drop IsByte 8 buf h))
            λ p r.
              rw (slice_from_in_range buf (8 + p.1) (omega (arith, r.2, length-drop 8 buf)))
                (omega arith))
  ]
