-- ===== src/Quic/Wire.antt =====
-- A message that one side writes behind its length is what the other side reads.
use hydr.Base.{ℕ, suc, ◌-◌, ◌/◌, ◌^◌, ◌<◌, ◌≡◌, refl, sym, ap, ◌∙◌, arith, List, [], ◌∷◌, ◌++◌}
use hydr.Base.{
  length, length-zero, length-append, take, drop, take-append_of, drop-append_of, append_assoc,
  append-nil, ltb, Bool-cases, true, false, inl, inr,
}
use hydr.Base.Results.{Result, ok, index, Result-cases}
use hydr.Varint.{encode_varint, encode_varint_len, decode_varint}
use hydr.Varint.Bytes.{be_bytes, length-be_bytes}
use hydr.Varint.Encode.{shape}
use hydr.Varint.Decode.{decode-encode_small}
use hydr.Quic.{read_varint, write_varint, read_message, write_len_prefixed}
use hydr.Quic.Streams.{Quinn}

-- A message behind its length.
abbrev pub prefixed : List ℕ → List ℕ
prefixed bs = encode_varint [] (length bs) ++ bs

module _ (q : Quinn) where
  open q use {
    Recv, Send, pending, written, read_exact, write_all, read_exact-enough, write_all-written,
  }

  -- `read_exact` of a known front.
  pub read_exact-front :
      (r : Recv) (front back : List ℕ) {n : ℕ}
      → length front ≡ n
      → pending r ≡ front ++ back
      → (r' : Recv) × (read_exact r n ≡ ok (front, r')) × (pending r' ≡ back)
  read_exact-front r front back {n} e p =
      let (r', read, left) =
        read_exact-enough r n (omega (arith, e, ap length p, length-append front back)) in
      (
        r',
        read ∙ ap (λ bs. ok (bs, r')) (ap (take n) p ∙ take-append_of front back e),
        left ∙ ap (drop n) p ∙ drop-append_of front back e,
      )

  -- The bytes of a number, as the first one tells how many they are.
  read_varint-long :
      (r r1 r2 : Recv) (lead : ℕ) (tail : List ℕ) (v used n : ℕ)
      → 2 ^ (lead / 2 ^ 6) ≡ suc n
      → ltb 1 (suc n) ≡ true
      → read_exact r 1 ≡ ok (lead ∷ [], r1)
      → read_exact r1 (suc n - 1) ≡ ok (tail, r2)
      → decode_varint (lead ∷ tail) ≡ ok (v, used)
      → read_varint q r ≡ ok (v, r2)
  unfolding read_varint index
  read_varint-long r r1 r2 lead tail v used n count long first others value =
      rw (first, count, long, others, value) refl

  read_varint-short :
      (r r1 : Recv) (lead : ℕ) (v used n : ℕ)
      → 2 ^ (lead / 2 ^ 6) ≡ suc n
      → ltb 1 (suc n) ≡ false
      → read_exact r 1 ≡ ok (lead ∷ [], r1)
      → decode_varint (lead ∷ []) ≡ ok (v, used)
      → read_varint q r ≡ ok (v, r1)
  unfolding read_varint index
  read_varint-short r r1 lead v used n count short first value =
      rw (first, count, short, value) refl

  read_varint-bytes :
      (r : Recv) (lead : ℕ) (tail rest : List ℕ) (v used : ℕ)
      → pending r ≡ lead ∷ (tail ++ rest)
      → 2 ^ (lead / 2 ^ 6) ≡ suc (length tail)
      → decode_varint (lead ∷ tail) ≡ ok (v, used)
      → (r' : Recv) × (read_varint q r ≡ ok (v, r')) × (pending r' ≡ rest)
  read_varint-bytes r lead tail rest v used p count value =
      let (r1, first, left) = read_exact-front r (lead ∷ []) (tail ++ rest) {n = 1} refl p in
      elim (Bool-cases (ltb 1 (suc (length tail)))) [
        | inl long ↦
            let width : length tail ≡ suc (length tail) - 1 = omega arith in
            let (r2, others, left') = read_exact-front r1 tail rest width left in
            (
              r2,
              read_varint-long r r1 r2 lead tail v used (length tail) count long first others value,
              left',
            )
        | inr short ↦
            let empty : tail ≡ [] = length-zero tail (ground (arith, short)) in
            (
              r1,
              read_varint-short r r1 lead v used (length tail) count short first
                  (ap (λ t. decode_varint (lead ∷ t)) (sym empty) ∙ value),
              left ∙ ap (λ t. t ++ rest) empty,
            )
      ]

  pub read_varint-front :
      (r : Recv) (v : ℕ) (rest : List ℕ)
      → v < 2 ^ 62
      → pending r ≡ encode_varint [] v ++ rest
      → (r' : Recv) × (read_varint q r ≡ ok (v, r')) × (pending r' ≡ rest)
  read_varint-front r v rest h p =
      let s = shape v (omega arith) in
      let value : decode_varint (s.lead ∷ be_bytes s.more v) ≡ ok (v, encode_varint_len v) =
        ap decode_varint
          (sym (append-nil (s.lead ∷ be_bytes s.more v)) ∙ ap (λ bs. bs ++ []) (sym (s.writes [])))
        ∙ decode-encode_small v [] h in
      read_varint-bytes r s.lead (be_bytes s.more v) rest v (encode_varint_len v)
        (p ∙ ap (λ bs. bs ++ rest) (s.writes []))
        (s.count ∙ ap suc (sym (length-be_bytes s.more v))) value

  -- Whatever decoder reads the bytes of a message alone reads it from a stream that starts with the
  -- message behind its length, and the stream is left just after it.
  pub read_message-prefixed {ℓ} :
      {A : Type ℓ} (r : Recv) (decode : List ℕ → Result (A × ℕ)) (bs rest : List ℕ) (a : A)
      (used : ℕ)
      → length bs < 2 ^ 62
      → decode bs ≡ ok (a, used)
      → pending r ≡ prefixed bs ++ rest
      → (r' : Recv) × (read_message q r decode ≡ ok (a, r')) × (pending r' ≡ rest)
  unfolding read_message
  read_message-prefixed r decode bs rest a used h reads p =
      let (r1, len, left) =
        read_varint-front r (length bs) (bs ++ rest) h
          (p ∙ append_assoc (encode_varint [] (length bs)) bs rest) in
      let (r2, body, left') = read_exact-front r1 bs rest {n = length bs} refl left in
      (r2, rw (len, body, reads) refl, left')

  -- What `write_len_prefixed` wrote, if it succeeded, is the message behind its length.
  pub write_len_prefixed-written :
      (s s' : Send) (bs : List ℕ)
      → write_len_prefixed q s bs ≡ ok s'
      → written s' ≡ written s ++ prefixed bs
  unfolding write_len_prefixed write_varint
  write_len_prefixed-written s s' bs e =
      elim (Result-cases (write_all s (encode_varint [] (length bs)))) [
        | inl (s1, p) ↦
            let body : write_all s1 bs ≡ ok s' = rw p at e in
            write_all-written s1 s' bs body
            ∙ ap (λ w. w ++ bs) (write_all-written s s1 (encode_varint [] (length bs)) p)
            ∙ append_assoc (written s) (encode_varint [] (length bs)) bs
        | inr refused ↦ absurd (refused _ (λ s1. write_all s1 bs) s' e)
      ]
