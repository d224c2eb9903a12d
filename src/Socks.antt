-- ===== src/Socks.antt =====
-- crates/hydr-client/src/socks5.rs: the SOCKS5 side of the client. The connection of the local program
-- is a parameter, with tokio's `read_exact` and `write_all` under the same laws as the streams of QUIC.
pub mod Login
use hydr.Base.{
  ℕ, ◌+◌, List, [], ◌∷◌, ◌++◌, Bool, true, false, Option, none, some, length, ltb, ◌==◌, ◌&&◌, ◌||◌,
  not,
}
use hydr.Base.{if◌then◌else◌}
use hydr.Base.Results.{Text, text, Result, ok, err, invalid_data, ◌>>=◌, index, slice_from}
use hydr.Base.Sets.{contains, nat_eq}
use hydr.Base.Utf8.{Utf8}
use hydr.Address.{Address}
use hydr.Address
use hydr.Message.Proof.{ct_eq}
use hydr.Quic.Streams.{Quinn}

abbrev pub cmd_connect : ℕ
cmd_connect = 0x01

abbrev pub cmd_udp_associate : ℕ
cmd_udp_associate = 0x03

abbrev pub method_no_auth : ℕ
method_no_auth = 0x00

abbrev pub method_userpass : ℕ
method_userpass = 0x02

abbrev pub method_no_acceptable : ℕ
method_no_acceptable = 0xff

pub record Request : Type 0 where
  pub cmd : ℕ
  pub address : Address

-- `parse_udp_packet`
unfoldable pub parse_udp_packet : Utf8 → List ℕ → Result (Address × List ℕ)
parse_udp_packet u buf =
    if ltb (length buf) 4 then err (invalid_data (text "bad socks udp header")) else do
      frag ← index buf 2
      if not (frag == 0) then err (invalid_data (text "bad socks udp header")) else do
        rest ← slice_from buf 3
        (address, used) ← Address.decode u rest
        payload ← slice_from buf (3 + used)
        ok (address, payload)

module _ (q : Quinn) where
  open q use {Recv, Send, read_exact, write_all}

  -- A name behind its length, and the port.
  unfoldable pub read_name : Recv → Result (List ℕ × Recv)
  read_name r = do
    (len, r1) ← read_exact r 1
    l ← index len 0
    (rest, r2) ← read_exact r1 (l + 2)
    ok (3 ∷ (l ∷ rest), r2)

  -- The bytes behind the head of a request, by their type.
  unfoldable pub read_addr : Recv → ℕ → Result (List ℕ × Recv)
  unfolding read_name
  read_addr r atyp =
      if atyp == 1
      then (read_exact r 6 >>= λ (rest, r1). ok (atyp ∷ rest, r1))
      else if atyp == 4
      then (read_exact r 18 >>= λ (rest, r1). ok (atyp ∷ rest, r1))
      else if atyp == 3
      then read_name r
      else err (invalid_data (text "bad address type"))

  unfoldable pub read_request : Utf8 → Recv → Result (Request × Recv)
  unfolding read_addr
  read_request u r = do
    (head, r1) ← read_exact r 4
    version ← index head 0
    if not (version == 5) then err (invalid_data (text "bad socks version")) else do
      cmd ← index head 1
      atyp ← index head 3
      (addr, r2) ← read_addr r1 atyp
      (address, used) ← Address.decode u addr
      ok (record { cmd = cmd; address = address }, r2)

  unfoldable pub negotiate_method : Send → Recv → Bool → Result (Option ℕ × (Send × Recv))
  negotiate_method s r require_auth = do
    (head, r1) ← read_exact r 2
    version ← index head 0
    if not (version == 5) then err (invalid_data (text "bad socks version")) else do
      nmethods ← index head 1
      if (nmethods == 0) || ltb 32 nmethods then err (invalid_data (text "bad nmethods")) else do
        (methods, r2) ← read_exact r1 nmethods
        let want = if require_auth then method_userpass else method_no_auth
        let known = contains want methods
        s1 ← write_all s (5 ∷ ((if known then want else method_no_acceptable) ∷ []))
        ok (if known then some want else none, (s1, r2))

  -- The lengths are bytes, so only a name of no bytes is refused for its length.
  unfoldable pub verify_userpass : Send → Recv → Text → Text → Result (Bool × (Send × Recv))
  verify_userpass s r expected_user expected_pass = do
    (head, r1) ← read_exact r 2
    version ← index head 0
    if not (version == 1) then err (invalid_data (text "bad userpass version")) else do
      ulen ← index head 1
      if (ulen == 0) || ltb 255 ulen then err (invalid_data (text "bad username length")) else do
        (user, r2) ← read_exact r1 ulen
        (plen_buf, r3) ← read_exact r2 1
        plen ← index plen_buf 0
        if ltb 255 plen then err (invalid_data (text "bad password length")) else do
          (pass, r4) ← read_exact r3 plen
          let right = ct_eq user expected_user && ct_eq pass expected_pass
          s1 ← write_all s (1 ∷ ((if right then 0 else 1) ∷ []))
          ok (right, (s1, r4))
