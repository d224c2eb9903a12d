-- ===== src/Message/Reader.antt =====
-- `Reader` of crates/hydr-core/src/message.rs: a cursor over a buffer. A method returns the value and
-- the cursor behind it; an error of `?` leaves the cursor of the caller as it was. A varint is below
-- 2 ^ 62 and a buffer shorter than 2 ^ 63, so that `self.pos + len` does not wrap.
use hydr.Base.{ℕ, ◌+◌, ◌≤◌, ◌<◌, ◌^◌, ◌≡◌, refl, List, [], ◌∷◌, ◌++◌, length, get_elem?, arith, ap}
use hydr.Base.{ltb, if◌then◌else◌, append_assoc, length-append, get_elem?-append, le→ltb}
use hydr.Base.Results.{Result, ok, err, unexpected_eof, ◌>>=◌, ok_or, slice, slice_from}
use hydr.Base.Results.{slice_middle, slice_from_append}
use hydr.Varint.{encode_varint, decode_varint}
use hydr.Varint.Encode.{length-encode_varint, encode_varint-append}
use hydr.Varint.Decode.{decode-encode_small}

pub record Reader : Type 0 where
  pub buf : List ℕ
  pub pos : ℕ

unfoldable pub new : List ℕ → Reader
new buf = record { buf = buf; pos = 0 }

unfoldable pub u8 : Reader → Result (ℕ × Reader)
u8 r = do b ← ok_or (get_elem? r.buf r.pos) unexpected_eof; ok (b, record r { pos = r.pos + 1 })

unfoldable pub varint : Reader → Result (ℕ × Reader)
varint r = do
  rest ← slice_from r.buf r.pos
  (v, used) ← decode_varint rest
  ok (v, record r { pos = r.pos + used })

unfoldable pub take_bytes : Reader → ℕ → Result (List ℕ × Reader)
take_bytes r len =
    if ltb (length r.buf) (r.pos + len)
    then err unexpected_eof
    else do out ← slice r.buf r.pos (r.pos + len); ok (out, record r { pos = r.pos + len })

unfoldable pub bytes : Reader → Result (List ℕ × Reader)
bytes r = do (len, r') ← varint r; take_bytes r' len

unfoldable pub remaining : Reader → Result (List ℕ)
remaining r = slice_from r.buf r.pos

-- A cursor between what has been read and what has not.
pub between : List ℕ → List ℕ → Reader
between front back = record { buf = front ++ back; pos = length front }

pub new-between : (buf : List ℕ) → new buf ≡ between [] buf
unfolding new between
new-between buf = refl

pub pos-between : (front back : List ℕ) → (between front back).pos ≡ length front
unfolding between
pos-between front back = refl

-- The cursor behind the next part.
advance :
    (front part back : List ℕ) (n : ℕ)
    → n ≡ length front + length part
    → record (between front (part ++ back)) { pos = n } ≡ between (front ++ part) back
unfolding between
advance front part back n e = rw (append_assoc front part back, length-append front part, e)

pub u8-between :
    (front : List ℕ) (b : ℕ) (back : List ℕ)
    → u8 (between front (b ∷ back)) ≡ ok (b, between (front ++ (b ∷ [])) back)
unfolding u8 between
u8-between front b back =
    rw (get_elem?-append front (b ∷ back))
      (ap (λ r. ok (b, r)) (advance front (b ∷ []) back (length front + 1) refl))

-- The bytes of a number, and of a field with its length in front.
pub wire : ℕ → List ℕ
wire v = encode_varint [] v

pub encode_varint-wire : (buf : List ℕ) (v : ℕ) → v < 2 ^ 62 → encode_varint buf v ≡ buf ++ wire v
unfolding wire
encode_varint-wire buf v h = encode_varint-append buf v (omega arith)

pub varint-between :
    (front : List ℕ) (v : ℕ) (back : List ℕ)
    → v < 2 ^ 62
    → varint (between front (wire v ++ back)) ≡ ok (v, between (front ++ wire v) back)
unfolding varint between wire
varint-between front v back h =
    rw (slice_from_append front (encode_varint [] v ++ back), decode-encode_small v back h)
      (ap (λ r. ok (v, r))
        (advance front (encode_varint [] v) back _
          (omega (arith, (length-encode_varint v (omega arith)).0))))

take_bytes-between :
    (front bs back : List ℕ)
    → take_bytes (between front (bs ++ back)) (length bs) ≡ ok (bs, between (front ++ bs) back)
unfolding take_bytes between
take_bytes-between front bs back =
    let fits : length front + length bs ≤ length (front ++ (bs ++ back)) =
      omega (arith, length-append front (bs ++ back), length-append bs back) in
    rw (le→ltb _ (length front + length bs) fits, slice_middle front bs back)
      (ap (λ r. ok (bs, r)) (advance front bs back _ refl))

pub bytes-between :
    (front bs back : List ℕ)
    → length bs < 2 ^ 62
    → bytes (between front (wire (length bs) ++ (bs ++ back)))
      ≡ ok (bs, between ((front ++ wire (length bs)) ++ bs) back)
unfolding bytes
bytes-between front bs back h =
    rw (varint-between front (length bs) (bs ++ back) h)
      (take_bytes-between (front ++ wire (length bs)) bs back)
