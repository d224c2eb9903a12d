-- ===== src/Quic/Streams.antt =====
-- What the code relies on of `quinn::RecvStream` and `quinn::SendStream`, and of tokio's `AsyncReadExt`
-- and `AsyncWriteExt` on a local connection. `pending` is what a stream
-- will still deliver before it ends. `read_exact` takes that many bytes, or fails if the stream ends
-- first; `write_all` writes all the bytes or fails.
use hydr.Base.{ℕ, ◌≤◌, ◌<◌, ◌≡◌, refl, sym, List, ◌++◌, length, take, drop, ltb, if◌then◌else◌}
use hydr.Base.{lt→ltb, le→ltb}
use hydr.Base.Results.{Result, ok, err, io, text, Error, ok-injective}

pub record Quinn : Type 1 where
  pub Recv : Type 0
  pub pending : Recv → List ℕ
  pub read_exact : Recv → ℕ → Result (List ℕ × Recv)
  pub read_exact-enough :
      (r : Recv) (n : ℕ)
      → n ≤ length (pending r)
      → (r' : Recv) × (read_exact r n ≡ ok (take n (pending r), r'))
        × (pending r' ≡ drop n (pending r))
  pub read_exact-short :
      (r : Recv) (n : ℕ) → length (pending r) < n → (e : Error) × (read_exact r n ≡ err e)
  pub Send : Type 0
  pub written : Send → List ℕ
  pub write_all : Send → List ℕ → Result Send
  pub write_all-written :
      (s s' : Send) (bs : List ℕ) → write_all s bs ≡ ok s' → written s' ≡ written s ++ bs

-- The laws hold of lists of bytes.
abbrev pub read_list : List ℕ → ℕ → Result (List ℕ × List ℕ)
read_list r n =
    if ltb (length r) n then err (io (text "stream finished early")) else ok (take n r, drop n r)

pub read_list-enough :
    (r : List ℕ) (n : ℕ)
    → n ≤ length r
    → (r' : List ℕ) × (read_list r n ≡ ok (take n r, r')) × (r' ≡ drop n r)
read_list-enough r n h = (drop n r, rw (le→ltb _ _ h) refl, refl)

pub read_list-short : (r : List ℕ) (n : ℕ) → length r < n → (e : Error) × (read_list r n ≡ err e)
read_list-short r n h = (io (text "stream finished early"), rw (lt→ltb _ _ h) refl)

abbrev pub lists : Quinn
lists = record {
  Recv = List ℕ;
  pending = λ r. r;
  read_exact = read_list;
  read_exact-enough = read_list-enough;
  read_exact-short = read_list-short;
  Send = List ℕ;
  written = λ s. s;
  write_all = λ s bs. ok (s ++ bs);
  write_all-written = λ s s' bs e. sym (ok-injective e);
}
