-- ===== src/Metrics/Endpoint.antt =====
-- crates/hydr-server/src/metrics_endpoint.rs: the answer to a connection. Failures of the socket are ignored by
-- the code, and left out.
use hydr.Base.{
  ℕ, ◌≡◌, [], ◌∷◌, ◌++◌, true, Option, none, some, length, take, leb, ◌==◌, ◌&&◌, if◌then◌else◌,
}
use hydr.Base.Results.{Text, text}
use hydr.Metrics.{Metrics}
use hydr.Metrics.Render.{render_prometheus, decimal_text, read_digits}

unfoldable pub response_head : ℕ → Text
response_head len =
    text "HTTP/1.1 200 OK\r\ncontent-type: text/plain; version=0.0.4\r\ncontent-length: "
    ++ (decimal_text len ++ text "\r\nconnection: close\r\n\r\n")

-- What is written for a request; it is read and ignored.
unfoldable pub respond : Text → Metrics → Text
unfolding response_head
respond request m = let body = render_prometheus m in response_head (length body) ++ body

-- How a client reads it: the number behind `content-length: `, and that many bytes behind the empty line.
unfoldable pub strip : Text → Text → Option Text
strip [] s = some s
strip (p ∷ ps) [] = none
strip (p ∷ ps) (c ∷ s) = let rest = strip ps s in if p == c then rest else none

unfoldable pub after : Text → Text → Option Text
unfolding strip
after mark [] = none
after mark (c ∷ s) = elim (strip mark (c ∷ s)) [ some rest ↦ some rest | none ↦ after mark s ]

unfoldable pub span_digits : Text → Text × Text
span_digits [] = ([], [])
span_digits (c ∷ s) =
    let (ds, rest) = span_digits s in if leb 48 c && leb c 57 then (c ∷ ds, rest) else ([], c ∷ s)

unfoldable pub read_response : Text → Option Text
unfolding after span_digits
read_response s = elim (after (text "content-length: ") s) [
  | none ↦ none
  | some t ↦
      let (ds, rest) = span_digits t in
      elim (after (text "\r\n\r\n") rest) [
        | none ↦ none
        | some body ↦ some (take (read_digits 0 ds) body)
      ]
]

abbrev IsDigit : ℕ → Type 0
IsDigit c = (leb 48 c && leb c 57) ≡ true
