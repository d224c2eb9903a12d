-- ===== src/Tests/Codec.antt =====
-- The theorems about the wire formats of crates/hydr-core/src at concrete inputs.
use hydr.Base.{ℕ, arith, List, [], ◌∷◌, All}
use hydr.Base.Results.{text, Returns}
use hydr.Base.Utf8.{ascii}
use hydr.Varint.Bytes.{IsByte}
use hydr.Address
use hydr.Address.{Address, IpAddr}
use hydr.Frame
use hydr.Frame.{Frame}
use hydr.Frame.Safety.{decode-Returns_frame}
use hydr.Frame.Safety as FrameSafety
use hydr.Message.{AuthRequest, Datagram}

-- `0x40 0x2a` is a number of two bytes.
abbrev two_bytes : List ℕ
two_bytes = 0x40 ∷ 0x2a ∷ []

two_bytes-IsByte : All IsByte two_bytes
two_bytes-IsByte = (omega arith, (omega arith, tt))

abbrev host : Address
host = Address.domain (text "a.b") 443

host-IsAddress : Address.IsAddress ascii host
host-IsAddress = ((omega arith, (omega arith, (omega arith, tt))), omega arith)

decode-Returns_frame_example : Returns (FrameSafety.Reads two_bytes) (Frame.decode two_bytes)
decode-Returns_frame_example = decode-Returns_frame two_bytes two_bytes-IsByte

abbrev nonce : List ℕ
nonce = 1 ∷ 2 ∷ 3 ∷ 4 ∷ 5 ∷ 6 ∷ 7 ∷ 8 ∷ []

abbrev request : AuthRequest
request = record {
  version = 1;
  auth_method = 1;
  client_nonce = nonce;
  auth_proof = nonce;
  cc_rx = 1000000;
  features = 1;
  padding = [];
}

abbrev packet : Datagram
packet = record {
  session_id = 70000;
  packet_id = 300;
  frag_id = 0;
  frag_count = 1;
  address = host;
  payload = 9 ∷ 8 ∷ [];
}

-- Nine bytes: an IPv4 address is announced, and missing.
abbrev cut_short : List ℕ
cut_short = 0 ∷ 0 ∷ 0 ∷ 1 ∷ 0 ∷ 0 ∷ 0 ∷ 1 ∷ 1 ∷ []
