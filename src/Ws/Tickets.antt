-- ===== src/Ws/Tickets.antt =====
-- crates/hydr-transport/src/ws.rs: the tickets of those who wait for a stream, and the handlers that leave
-- them alone.
use hydr.Base.{
  ℕ, ◌+◌, ◌≡◌, refl, ap, ◌∙◌, arith, List, [], ◌∷◌, ◌++◌, Bool, Option, none, some, some-injective,
}
use hydr.Base.{◌==◌, if◌then◌else◌, Bool-cases, inl, inr}
use hydr.Base.Maps.{Map, get, remove_entry}
use hydr.Base.Results.{Result, ok, err, panic}
use hydr.Base.Utf8.{Utf8}
use hydr.Frame.{Frame}
use hydr.Message.{AuthRequest, OpenStream, Datagram, decode_auth_request}
use hydr.Ws.Session.{Conn, Validator, send_frame, emit}
use hydr.Ws.Dispatch.{
  validated, deliver_request, grant_session, on_auth_request, answer_session, on_auth_response,
  incoming_open, on_open_stream, on_stream_data, grant_credit, on_stream_credit, incoming_datagram,
  on_datagram, blocked,
}
use hydr.Ws.Run.{
  send_cmd, open_cmd, reply_open_cmd, close_cmd, Input, writer_done, socket_failed, cmd, binary,
  ws_ping, other_message, read_error, tick,
}

abbrev pub one_if : Bool → ℕ
one_if b = if b then 1 else 0

-- How often a ticket was answered, and how often it waits.
unfoldable pub answers_of {ℓ} : {A : Type ℓ} → ℕ → List (ℕ × A) → ℕ
answers_of ticket [] = 0
answers_of ticket ((k, r) ∷ rest) = one_if (k == ticket) + answers_of ticket rest

unfoldable pub waits_of : ℕ → Map ℕ → ℕ
waits_of ticket [] = 0
waits_of ticket ((id, k) ∷ rest) = one_if (k == ticket) + waits_of ticket rest

-- How often some inputs ask for a stream with a ticket.
unfoldable pub asks_of : ℕ → List Input → ℕ
asks_of ticket [] = 0
asks_of ticket (cmd (open_cmd id addr k) ∷ is) = one_if (k == ticket) + asks_of ticket is
asks_of ticket (cmd (send_cmd f) ∷ is) = asks_of ticket is
asks_of ticket (cmd (reply_open_cmd id status error_code message) ∷ is) = asks_of ticket is
asks_of ticket (cmd close_cmd ∷ is) = asks_of ticket is
asks_of ticket (writer_done ∷ is) = asks_of ticket is
asks_of ticket (socket_failed ∷ is) = asks_of ticket is
asks_of ticket (binary bytes ∷ is) = asks_of ticket is
asks_of ticket (ws_ping payload room ∷ is) = asks_of ticket is
asks_of ticket (other_message ∷ is) = asks_of ticket is
asks_of ticket (read_error ∷ is) = asks_of ticket is
asks_of ticket (tick ∷ is) = asks_of ticket is

pub answers_of_snoc {ℓ} :
    {A : Type ℓ} (ticket k : ℕ) (r : A) (xs : List (ℕ × A))
    → answers_of ticket (xs ++ ((k, r) ∷ [])) ≡ one_if (k == ticket) + answers_of ticket xs
unfolding answers_of
answers_of_snoc ticket k r [] = refl
answers_of_snoc ticket k r ((j, s) ∷ xs) = omega (arith, answers_of_snoc ticket k r xs)

pub waits_of-remove_entry :
    (ticket id k : ℕ) (m : Map ℕ)
    → get id m ≡ some k
    → waits_of ticket m ≡ one_if (k == ticket) + waits_of ticket (remove_entry id m)
unfolding waits_of get remove_entry
waits_of-remove_entry ticket id k [] e = absurd (cc)
waits_of-remove_entry ticket id k ((j, a) ∷ m) e = elim (Bool-cases (j == id)) [
  | inl hit ↦ let p : a ≡ k = some-injective _ _ (rw hit at e) in rw (hit, p) refl
  | inr miss ↦
      let found : get id m ≡ some k = rw miss at e in
      rw miss (omega (arith, waits_of-remove_entry ticket id k m found))
]

pub waits_of-remove_entry-none :
    (ticket id : ℕ) (m : Map ℕ)
    → get id m ≡ none
    → waits_of ticket (remove_entry id m) ≡ waits_of ticket m
unfolding waits_of get remove_entry
waits_of-remove_entry-none ticket id [] e = refl
waits_of-remove_entry-none ticket id ((j, a) ∷ m) e = elim (Bool-cases (j == id)) [
  | inl hit ↦ let no_way : some a ≡ none = rw hit at e in absurd (cc)
  | inr miss ↦
      let lost : get id m ≡ none = rw miss at e in
      rw miss (ap (λ n. one_if (a == ticket) + n) (waits_of-remove_entry-none ticket id m lost))
]

module _ {V : Type 0} where
  -- What is known of a ticket: its answers and its waits.
  unfoldable pub known : ℕ → Conn V → ℕ
  unfolding answers_of waits_of
  known ticket c = answers_of ticket c.open_done + waits_of ticket c.pending

  -- The parts of the state that tickets are about.
  abbrev pub Alike : Conn V → Conn V → Type 0
  Alike c' c = (c'.open_done ≡ c.open_done) × (c'.pending ≡ c.pending)

  pub known-Alike : (ticket : ℕ) (c' c : Conn V) → Alike c' c → known ticket c' ≡ known ticket c
  unfolding known
  known-Alike ticket c' c (done, waiting) = rw (done, waiting) refl

  pub send_frame-Alike : (c : Conn V) (f : Frame) → Alike (send_frame c f).1 c
  unfolding send_frame
  send_frame-Alike c f = ground arith

  pub validated-Alike :
      (validate : Validator V) (c : Conn V) (id : ℕ) (r : Result (AuthRequest × ℕ))
      → Alike (validated validate c id r).1 c
  unfolding validated deliver_request grant_session
  validated-Alike validate c id (ok (req, used)) = ground arith
  validated-Alike validate c id (err e) = (refl, refl)
  validated-Alike validate c id panic = (refl, refl)

  pub on_auth_request-Alike :
      (auth : Option (Validator V)) (c : Conn V) (f : Frame) → Alike (on_auth_request auth c f).1 c
  unfolding on_auth_request
  on_auth_request-Alike none c f = (refl, refl)
  on_auth_request-Alike (some validate) c f =
      let (done, waiting) = validated-Alike validate c f.stream_id (decode_auth_request f.body) in
      let (done', waiting') =
        send_frame-Alike (validated validate c f.stream_id (decode_auth_request f.body)).1 _ in
      (done' ∙ done, waiting' ∙ waiting)

  pub on_auth_response-Alike : (c : Conn V) (f : Frame) → Alike (on_auth_response c f) c
  unfolding on_auth_response answer_session
  on_auth_response-Alike c f = ground arith

  pub incoming_open-Alike :
      (c : Conn V) (id : ℕ) (r : Result (OpenStream × ℕ)) → Alike (incoming_open c id r) c
  unfolding incoming_open emit
  incoming_open-Alike c id (ok (req, used)) = (refl, refl)
  incoming_open-Alike c id (err e) = (refl, refl)
  incoming_open-Alike c id panic = (refl, refl)

  pub on_open_stream-Alike : (u : Utf8) (c : Conn V) (f : Frame) → Alike (on_open_stream u c f).1 c
  unfolding on_open_stream
  on_open_stream-Alike u c f = elim (Bool-cases (blocked c.sessions f.stream_id)) [
    | inl no_session ↦ rw no_session (send_frame-Alike c _)
    | inr free ↦ rw free (incoming_open-Alike c f.stream_id _)
  ]

  pub on_stream_data-Alike : (c : Conn V) (f : Frame) → Alike (on_stream_data c f) c
  unfolding on_stream_data
  on_stream_data-Alike c f = ground arith

  grant_credit-Alike : (c : Conn V) (id : ℕ) (r : Result (ℕ × ℕ)) → Alike (grant_credit c id r) c
  unfolding grant_credit
  grant_credit-Alike c id (ok (amt, used)) = ground arith
  grant_credit-Alike c id (err e) = (refl, refl)
  grant_credit-Alike c id panic = (refl, refl)

  pub on_stream_credit-Alike : (c : Conn V) (f : Frame) → Alike (on_stream_credit c f) c
  unfolding on_stream_credit
  on_stream_credit-Alike c f = elim (Bool-cases (f.stream_id == 0)) [
    | inl zero_id ↦ rw zero_id (refl, refl)
    | inr other ↦ rw other (grant_credit-Alike c f.stream_id _)
  ]

  incoming_datagram-Alike :
      (c : Conn V) (r : Result (Datagram × ℕ)) → Alike (incoming_datagram c r) c
  unfolding incoming_datagram emit
  incoming_datagram-Alike c (ok (dg, used)) = (refl, refl)
  incoming_datagram-Alike c (err e) = (refl, refl)
  incoming_datagram-Alike c panic = (refl, refl)

  pub on_datagram-Alike : (u : Utf8) (c : Conn V) (f : Frame) → Alike (on_datagram u c f) c
  unfolding on_datagram
  on_datagram-Alike u c f = elim (Bool-cases (blocked c.sessions f.stream_id)) [
    | inl no_session ↦ rw no_session (refl, refl)
    | inr free ↦ rw free (incoming_datagram-Alike c _)
  ]
