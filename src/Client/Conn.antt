-- ===== src/Client/Conn.antt =====
-- `handle_conn` of crates/hydr-client/src/lib.rs: a connection of a local program. What opens a stream and
-- what serves an association are arguments; the copying of bytes is left out, and so is what was written
-- before the login or the reading of the request failed.
use hydr.Base.{ℕ, List, [], ◌∷◌, Bool, true, false, Option, none, some, ◌==◌, if◌then◌else◌}
use hydr.Base.Results.{Text, text, Result, ok, err, panic, invalid_data, ◌>>=◌}
use hydr.Base.Utf8.{Utf8}
use hydr.Address.{Address}
use hydr.Client.{ClientConfig}
use hydr.Quic.Streams.{Quinn}
use hydr.Socks.{
  Request, read_request, negotiate_method, verify_userpass, method_userpass, cmd_connect,
  cmd_udp_associate,
}

abbrev pub is_some {ℓ} : {A : Type ℓ} → Option A → Bool
is_some none = false
is_some (some a) = true

abbrev pub or_default : Option Text → Text
or_default none = []
or_default (some t) = t

-- The answers to a request, with no address.
abbrev pub answer : ℕ → List ℕ
answer code = 5 ∷ (code ∷ (0 ∷ (1 ∷ (0 ∷ (0 ∷ (0 ∷ (0 ∷ (0 ∷ (0 ∷ [])))))))))

module _ (q : Quinn) where
  open q use {Recv, Send, write_all}

  unfoldable pub check_method : ClientConfig → Option ℕ → Send → Recv → Result (Send × Recv)
  check_method config none s r = err (invalid_data (text "no acceptable auth method"))
  check_method config (some m) s r =
      if m == method_userpass
      then (verify_userpass q s r (or_default config.socks5_username)
            (or_default config.socks5_password)
          >>= λ (right, ends).
              if right then ok ends else err (invalid_data (text "socks5 auth failed")))
      else ok (s, r)

  -- Up to the request.
  unfoldable pub login : ClientConfig → Send → Recv → Result (Send × Recv)
  unfolding check_method
  login config s r = negotiate_method q s r (is_some config.socks5_username) >>= λ (m, (s1, r1)).
      check_method config m s1 r1

  -- The bytes of an answer whose failure to be sent is ignored.
  unfoldable pub told : Send → Result Send → Send
  told s (ok s') = s'
  told s (err e) = s
  told s panic = s

  module _ {Stream W : Type 0} (open_stream : Address → W → Result Stream × W)
      (associate : W → Result (Unit {0}) × W) where
    -- The stream that is relayed to, if one is, with the end that was written to.
    unfoldable pub connected : Send → Result Stream × W → Result (Option Stream) × (Send × W)
    unfolding told
    connected s (ok peer, w) = elim (write_all s (answer 0)) [
      | ok s' ↦ (ok (some peer), (s', w))
      | err e ↦ (err e, (s, w))
      | panic ↦ (panic, (s, w))
    ]
    connected s (err e, w) = (err e, (told s (write_all s (answer 4)), w))
    connected s (panic, w) = (panic, (s, w))

    unfoldable pub on_request : Request → Send → W → Result (Option Stream) × (Send × W)
    unfolding connected
    on_request req s w =
        if req.cmd == cmd_connect
        then connected s (open_stream req.address w)
        else if req.cmd == cmd_udp_associate
        then (let (r, w') = associate w in (r >>= λ done. ok none, (s, w')))
        else elim (write_all s (answer 7)) [
          | ok s' ↦ (err (invalid_data (text "unsupported command")), (s', w))
          | err e ↦ (err e, (s, w))
          | panic ↦ (panic, (s, w))
        ]

    unfoldable pub requested :
        Send → W → Result (Request × Recv) → Result (Option Stream) × (Send × W)
    unfolding on_request
    requested s w (ok (req, r)) = on_request req s w
    requested s w (err e) = (err e, (s, w))
    requested s w panic = (panic, (s, w))

    unfoldable pub logged_in :
        Utf8 → Send → W → Result (Send × Recv) → Result (Option Stream) × (Send × W)
    unfolding requested
    logged_in u s w (ok (s1, r1)) = requested s1 w (read_request q u r1)
    logged_in u s w (err e) = (err e, (s, w))
    logged_in u s w panic = (panic, (s, w))

    unfoldable pub handle_conn :
        Utf8 → ClientConfig → Send → Recv → W → Result (Option Stream) × (Send × W)
    unfolding logged_in login
    handle_conn u config s r w = logged_in u s w (login config s r)
