-- ===== src/Socks/Login.antt =====
-- The password of the local proxy in crates/hydr-client/src/socks5.rs.
use hydr.Base.{ℕ, ◌≤◌, ◌<◌, ◌≡◌, refl, arith, List, [], ◌∷◌, ◌++◌, false, length}
use hydr.Base.{ltb, ◌==◌, ◌&&◌, if◌then◌else◌}
use hydr.Base.Results.{Text, ok, err, ◌>>=◌, index, invalid_data, text}
use hydr.Base.Utf8.{Utf8}
use hydr.Address
use hydr.Message.Proof.{ct_eq}
use hydr.Quic.Streams.{Quinn}
use hydr.Quic.Wire.{read_exact-front}
use hydr.Socks.{read_request, read_addr, verify_userpass}

module _ (q : Quinn) where
  open q use {Recv, Send, pending, read_exact, write_all}

  verify_userpass-reads :
      (s : Send) (r r1 r2 r3 r4 : Recv) (expected_user expected_pass user pass : Text)
      → (length user == 0) ≡ false
      → ltb 255 (length user) ≡ false
      → ltb 255 (length pass) ≡ false
      → read_exact r 2 ≡ ok (1 ∷ (length user ∷ []), r1)
      → read_exact r1 (length user) ≡ ok (user, r2)
      → read_exact r2 1 ≡ ok (length pass ∷ [], r3)
      → read_exact r3 (length pass) ≡ ok (pass, r4)
      → let right = ct_eq user expected_user && ct_eq pass expected_pass in
        verify_userpass q s r expected_user expected_pass
        ≡ (write_all s (1 ∷ ((if right then 0 else 1) ∷ [])) >>= λ s'. ok (right, (s', r4)))
  unfolding verify_userpass index
  verify_userpass-reads s r r1 r2 r3 r4 eu ep user pass some_user short_user short_pass e1 e2 e3
        e4 =
      rw (e1, some_user, short_user, e2, e3, short_pass, e4) refl

  -- A local program that sends a name of 1 to 255 bytes and a password of at most 255 is let in exactly
  -- if both are the expected ones, and is told so.
  pub verify_userpass-result :
      (s : Send) (r : Recv) (expected_user expected_pass user pass rest : List ℕ)
      → 1 ≤ length user
      → length user < 256
      → length pass < 256
      → pending r ≡ 1 ∷ (length user ∷ (user ++ (length pass ∷ (pass ++ rest))))
      → let right = ct_eq user expected_user && ct_eq pass expected_pass in
        (r' : Recv) × (verify_userpass q s r expected_user expected_pass
          ≡ (write_all s (1 ∷ ((if right then 0 else 1) ∷ [])) >>= λ s'. ok (right, (s', r'))))
        × (pending r' ≡ rest)
  verify_userpass-result s r eu ep user pass rest named short_user short_pass p =
      let (r1, e1, p1) =
        read_exact-front q r (1 ∷ (length user ∷ [])) (user ++ (length pass ∷ (pass ++ rest)))
          {n = 2} refl p in
      let (r2, e2, p2) =
        read_exact-front q r1 user (length pass ∷ (pass ++ rest)) {n = length user} refl p1 in
      let (r3, e3, p3) = read_exact-front q r2 (length pass ∷ []) (pass ++ rest) {n = 1} refl p2 in
      let (r4, e4, p4) = read_exact-front q r3 pass rest {n = length pass} refl p3 in
      (
        r4,
        verify_userpass-reads s r r1 r2 r3 r4 eu ep user pass (ground (arith, named))
            (ground (arith, short_user)) (ground (arith, short_pass)) e1 e2 e3 e4,
        p4,
      )

  read_request-reads_six :
      (u : Utf8) (r r1 r2 : Recv) (cmd reserved : ℕ) (bytes : List ℕ)
      → read_exact r 4 ≡ ok (5 ∷ (cmd ∷ (reserved ∷ (4 ∷ []))), r1)
      → read_exact r1 18 ≡ ok (bytes, r2)
      → read_request q u r ≡ err (invalid_data (text "bad address type"))
  unfolding read_request read_addr index Address.decode
  read_request-reads_six u r r1 r2 cmd reserved bytes e1 e2 = rw (e1, e2) refl

  -- A request of a local program for an IPv6 address is always refused: its type, 4, is not the type
  -- that `Address::decode` gives such addresses.
  pub read_request-ipv6 :
      (u : Utf8) (r : Recv) (cmd reserved : ℕ) (bytes rest : List ℕ)
      → length bytes ≡ 18
      → pending r ≡ 5 ∷ (cmd ∷ (reserved ∷ (4 ∷ (bytes ++ rest))))
      → read_request q u r ≡ err (invalid_data (text "bad address type"))
  read_request-ipv6 u r cmd reserved bytes rest e p =
      let (r1, e1, p1) =
        read_exact-front q r (5 ∷ (cmd ∷ (reserved ∷ (4 ∷ [])))) (bytes ++ rest) {n = 4} refl p in
      let (r2, e2, p2) = read_exact-front q r1 bytes rest e p1 in
      read_request-reads_six u r r1 r2 cmd reserved bytes e1 e2
