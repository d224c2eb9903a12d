-- ===== src/Frame/Safety.antt =====
-- The frame decoder on any input.
use hydr.Base.{ℕ, ◌+◌, ◌-◌, ◌<◌, ◌≤◌, ◌^◌, ◌≡◌, ◌∙◌, arith, List}
use hydr.Base.{length, All, le→ltb, lt→ltb, take, drop, get_elem?, length-take, length-drop}
use hydr.Base.{All-take, All-drop, All-get_elem?, Option-cases, inl, inr, lt_of_get_elem?}
use hydr.Base.Results.{slice_in_range, slice_from_in_range, Returns, Returns->>=}
use hydr.Varint.{decode_varint}
use hydr.Varint.Decode.{Decoded, decode_varint-Returns}
use hydr.Varint.Bytes.{IsByte}
use hydr.Frame.{Frame, IsFrame, max_body_len, decode_body, decode}
use native.Mathlib.Decide.{dec_lt}

-- A frame that keeps the limits of the protocol, and a count of bytes within the buffer.
abbrev pub Reads : List ℕ → Frame × ℕ → Type 0
Reads buf (f, used) = IsFrame f × (0 < used) × (used ≤ length buf)

decode_body-Returns :
    (buf : List ℕ) (id kind pos len : ℕ)
    → All IsByte buf
    → id < 2 ^ 62
    → IsByte kind
    → 0 < pos
    → Returns (Reads buf) (decode_body buf id kind pos len)
unfolding decode_body
decode_body-Returns buf id kind pos len bytes small byte nonzero = elim (dec_lt max_body_len len) [
  | yes large ↦ rw (lt→ltb _ _ large) tt
  | no fits ↦ elim (dec_lt (pos + len) (2 ^ 64)) [
    | no wraps ↦
        rw (le→ltb max_body_len len (omega arith), le→ltb (pos + len) (2 ^ 64) (omega arith)) tt
    | yes sum ↦ elim (dec_lt (length buf) (pos + len)) [
      | yes short ↦ rw (le→ltb max_body_len len (omega arith), lt→ltb _ _ sum, lt→ltb _ _ short) tt
      | no long ↦
          let width : length (take (pos + len - pos) (drop pos buf)) ≡ len =
            length-take (pos + len - pos) (drop pos buf) (omega (arith, length-drop pos buf))
            ∙ omega arith in
          rw
            (
              le→ltb max_body_len len (omega arith),
              lt→ltb _ _ sum,
              le→ltb (length buf) (pos + len) (omega arith),
              slice_in_range buf pos (pos + len) (omega arith) (omega arith),
            )
            (
              record {
                id = small;
                kind = byte;
                size = omega (arith, width);
                bytes = All-take IsByte _ _ (All-drop IsByte pos buf bytes);
              },
              omega arith,
              omega arith,
            )
    ]
  ]
]

-- On every buffer of bytes the decoder returns a frame within the limits and a count within the
-- buffer, or an error; it never panics, whatever length the header declares.
pub decode-Returns_frame : (buf : List ℕ) → All IsByte buf → Returns (Reads buf) (decode buf)
unfolding decode
decode-Returns_frame buf bytes =
    Returns->>= (Decoded buf) (Reads buf) (decode_varint buf) _ (decode_varint-Returns buf bytes)
      λ (id, used) d. elim (Option-cases (get_elem? buf used)) [
        | inl none_there ↦ rw none_there tt
        | inr (kind, there) ↦
            let byte = All-get_elem? IsByte buf used kind there bytes in
            let room : used + 1 ≤ length buf = omega (arith, lt_of_get_elem? buf used kind there) in
            rw (there, slice_from_in_range buf (used + 1) room)
              (Returns->>= (Decoded (drop (used + 1) buf)) (Reads buf)
                (decode_varint (drop (used + 1) buf)) _
                (decode_varint-Returns (drop (used + 1) buf) (All-drop IsByte (used + 1) buf bytes))
                λ (len, used2) d2.
                  decode_body-Returns buf id kind (used + 1 + used2) len bytes d.0 byte
                    (omega arith))
      ]
