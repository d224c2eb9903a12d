-- ===== src/Frame/RoundTrip.antt =====
-- Reading back an encoded frame.
use hydr.Base.{ℕ, ◌+◌, ◌<◌, ◌≤◌, ◌^◌, ◌≡◌, ap, ◌∙◌, arith, List, [], ◌∷◌, ◌++◌, some}
use hydr.Base.{length, length-append, append_assoc, snoc_append, le→ltb, lt→ltb, get_elem?}
use hydr.Base.{get_elem?-append}
use hydr.Base.Results.{ok, err, invalid_data, text, slice_from, slice_middle, slice_from_append}
use hydr.Varint.{encode_varint, encode_varint_len}
use hydr.Varint.Encode.{encode_varint-append, length-encode_varint, encode_varint_len_bounds}
use hydr.Varint.Decode.{decode-encode_small}
use hydr.Frame.{Frame, max_body_len, new, encode, decode_body, decode}

abbrev varint : ℕ → List ℕ
varint v = encode_varint [] v

-- The bytes of a frame.
abbrev wire : Frame → List ℕ
wire f = varint f.stream_id ++ (f.frame_type ∷ (varint (length f.body) ++ f.body))

encode-wire :
    (buf : List ℕ) (f : Frame)
    → f.stream_id < 2 ^ 64
    → length f.body < 2 ^ 64
    → encode buf f ≡ buf ++ wire f
unfolding encode
encode-wire buf f h k =
    rw
      (
        encode_varint-append buf f.stream_id h,
        encode_varint-append ((buf ++ varint f.stream_id) ++ (f.frame_type ∷ [])) (length f.body) k,
      )
      (simp append_assoc)

-- The header is read whatever follows it: what is left to do is `decode_body`.
decode_header :
    (id kind len : ℕ) (tail : List ℕ)
    → id < 2 ^ 62
    → len < 2 ^ 62
    → let buf = varint id ++ (kind ∷ (varint len ++ tail)) in
      decode buf ≡ decode_body buf id kind (length (varint id ++ (kind ∷ varint len))) len
unfolding decode
decode_header id kind len tail h k =
    let n = encode_varint_len id in
    let m = encode_varint_len len in
    let first = (length-encode_varint id (omega arith)).0 in
    let second = (length-encode_varint len (omega arith)).0 in
    let kind_read : get_elem? (varint id ++ (kind ∷ (varint len ++ tail))) n ≡ some kind =
      rw (← first) (get_elem?-append (varint id) (kind ∷ (varint len ++ tail))) in
    let width : length (varint id ++ (kind ∷ [])) ≡ n + 1 =
      omega (arith, length-append (varint id) (kind ∷ []), first) in
    let rest_read : slice_from (varint id ++ (kind ∷ (varint len ++ tail))) (n + 1)
        ≡ ok (varint len ++ tail) =
      rw (snoc_append (varint id) kind (varint len ++ tail), width) at
        (slice_from_append (varint id ++ (kind ∷ [])) (varint len ++ tail)) in
    let total : n + 1 + m ≡ length (varint id ++ (kind ∷ varint len)) =
      omega (arith, length-append (varint id) (kind ∷ varint len), first, second) in
    rw (
      decode-encode_small id (kind ∷ (varint len ++ tail)) h,
      kind_read,
      rest_read,
      decode-encode_small len tail k,
      total,
    )

decode_body_lem :
    (front body rest : List ℕ) (id kind : ℕ)
    → length body ≤ max_body_len
    → length front < 2 ^ 63
    → decode_body (front ++ (body ++ rest)) id kind (length front) (length body)
      ≡ ok (new id kind body, length front + length body)
unfolding decode_body
decode_body_lem front body rest id kind h k =
    let fits : length front + length body ≤ length (front ++ (body ++ rest)) =
      omega (arith, length-append front (body ++ rest), length-append body rest) in
    rw (
      le→ltb max_body_len (length body) h,
      lt→ltb (length front + length body) (2 ^ 64) (omega arith),
      le→ltb _ (length front + length body) fits,
      slice_middle front body rest,
    )

module _ (f : Frame) (rest : List ℕ) where
  open f use {stream_id, frame_type, body}

  wire_split :
      stream_id < 2 ^ 62
      → length body < 2 ^ 62
      → encode [] f ++ rest
        ≡ varint stream_id ++ (frame_type ∷ (varint (length body) ++ (body ++ rest)))
  wire_split h k = rw (encode-wire [] f (omega arith) (omega arith)) (simp append_assoc)

  joined :
      varint stream_id ++ (frame_type ∷ (varint (length body) ++ (body ++ rest)))
      ≡ (varint stream_id ++ (frame_type ∷ varint (length body))) ++ (body ++ rest)
  joined = simp append_assoc

  header_length :
      stream_id < 2 ^ 62
      → length body < 2 ^ 62
      → length (varint stream_id ++ (frame_type ∷ varint (length body))) ≤ 17
  header_length h k = omega (
    arith,
    length-append (varint stream_id) (frame_type ∷ varint (length body)),
    (length-encode_varint stream_id (omega arith)).0,
    (length-encode_varint (length body) (omega arith)).0,
    encode_varint_len_bounds stream_id,
    encode_varint_len_bounds (length body),
  )

  total_length :
      stream_id < 2 ^ 62
      → length body < 2 ^ 62
      → length (varint stream_id ++ (frame_type ∷ varint (length body))) + length body
        ≡ length (encode [] f)
  total_length h k = rw (encode-wire [] f (omega arith) (omega arith)) (
      omega (
        arith,
        length-append (varint stream_id) (frame_type ∷ varint (length body)),
        length-append (varint stream_id) (frame_type ∷ (varint (length body) ++ body)),
        length-append (varint (length body)) body,
      ))

  -- A frame with a body of at most 64 KiB is read back whole, with its exact length, whatever
  -- follows it.
  pub decode-encode_frame :
      stream_id < 2 ^ 62
      → length body ≤ max_body_len
      → decode (encode [] f ++ rest) ≡ ok (f, length (encode [] f))
  decode-encode_frame h k =
      let front = varint stream_id ++ (frame_type ∷ varint (length body)) in
      let small : length body < 2 ^ 62 = omega arith in
      rw (wire_split h small) (
        decode_header stream_id frame_type (length body) (body ++ rest) h small
        ∙ rw joined (
            decode_body_lem front body rest stream_id frame_type k
              (omega (arith, header_length h small)))
        ∙ ap (λ n. ok (f, n)) (total_length h small))

  -- A frame with a longer body is refused by its header.
  pub decode-encode_oversized :
      stream_id < 2 ^ 62
      → max_body_len < length body
      → length body < 2 ^ 62
      → decode (encode [] f ++ rest) ≡ err (invalid_data (text "frame body too large"))
  unfolding decode_body
  decode-encode_oversized h k small = rw (wire_split h small) (
      decode_header stream_id frame_type (length body) (body ++ rest) h small
      ∙ rw (lt→ltb max_body_len (length body) k))
