-- ===== src/Ws/Mux.antt =====
-- crates/hydr-transport/src/ws.rs with `mux`: on which streams a peer may open something.
use hydr.Base.{
  ℕ, ◌≡◌, refl, subst, sym, ◌∙◌, ◌⊎◌, inl, inr, List, [], ◌∷◌, true, false, Option, none, some,
}
use hydr.Base.{◌==◌, ==_iff, Bool-cases, All, All-append}
use hydr.Base.Results.{Result, ok, err, panic}
use hydr.Base.Sets.{contains, nat_eq}
use hydr.Base.Utf8.{Utf8}
use hydr.Frame
use hydr.Frame.{Frame, frame_auth_request, frame_auth_response, frame_pong}
use hydr.Message.{
  AuthRequest, AuthResponse, OpenStream, Datagram, encode_auth_response, decode_auth_request,
  decode_open_stream, decode_datagram,
}
use hydr.Base.{if-All}
use hydr.Ws.Cases.{dispatch-All}
use hydr.Ws.Session.{Conn, Validator, WsEvent, incoming, datagram, send_frame, emit}
use hydr.Ws.Dispatch.{
  add_session, accepted, blocked, validated, deliver_request, grant_session, on_auth_request,
  incoming_open, on_open_stream, on_auth_response, on_open_stream_ack, on_stream_data,
  on_stream_credit, on_stream_close, incoming_datagram, on_datagram, dispatch,
}
use hydr.Ws.Quiet.{
  Quiet, send_frame-Quiet, deliver_request-Quiet, on_auth_response-Quiet, on_open_stream_ack-Quiet,
  on_stream_data-Quiet, on_stream_credit-Quiet, on_stream_close-Quiet,
}

-- What is told of a peer that opens a stream, where `P` is of the streams that it may use.
abbrev pub Told : (ℕ → Type 0) → WsEvent → Type 0
Told P (incoming id addr) = (id ≡ 0) ⊎ P id
Told P (datagram dg) = Unit

Told-weaken :
    (P Q : ℕ → Type 0)
    → ((id : ℕ) → P id → Q id)
    → (es : List WsEvent) → All (Told P) es
    → All (Told Q) es
Told-weaken P Q h [] a = tt
Told-weaken P Q h (incoming id addr ∷ es) (inl p, a) = (inl p, Told-weaken P Q h es a)
Told-weaken P Q h (incoming id addr ∷ es) (inr p, a) = (inr (h id p), Told-weaken P Q h es a)
Told-weaken P Q h (datagram dg ∷ es) (p, a) = (tt, Told-weaken P Q h es a)

contains-add_session :
    (id j : ℕ) (ss : List ℕ)
    → contains j (add_session id ss) ≡ true
    → (contains j ss ≡ true) ⊎ (id ≡ j)
unfolding add_session
contains-add_session id j ss h = elim (Bool-cases (contains id ss)) [
  | inl old ↦ inl (rw old at h)
  | inr new ↦ elim (Bool-cases (id == j)) [
    | inl same ↦ inr ((==_iff id j).0 same)
    | inr other ↦ inl (rw (new, other) at h)
  ]
]

blocked_free :
    (ss : List ℕ) (id : ℕ) → blocked (some ss) id ≡ false → (id ≡ 0) ⊎ (contains id ss ≡ true)
unfolding blocked
blocked_free ss id h = elim (Bool-cases (id == 0)) [
  | inl same ↦ inl ((==_iff id 0).0 same)
  | inr other ↦ elim (Bool-cases (contains id ss)) [
    | inl there ↦ inr there
    | inr missing ↦ let no_way : true ≡ false = rw (other, missing) at h in absurd (cc)
  ]
]

module _ {V : Type 0} where
  -- The sessions and the events of a connection with `mux`, where `P` is of every session.
  abbrev pub Held : (ℕ → Type 0) → Conn V → Type 0
  Held P c =
      (ss : List ℕ) × (c.sessions ≡ some ss)
      × ((id : ℕ) → contains id ss ≡ true → P id)
      × All (Told P) c.events

  pub Held-weaken : (P Q : ℕ → Type 0) (c : Conn V) → ((id : ℕ) → P id → Q id) → Held P c → Held Q c
  Held-weaken P Q c h (ss, e, k, a) = (ss, e, (λ id i. h id (k id i)), Told-weaken P Q h c.events a)

  pub Held-Quiet : (P : ℕ → Type 0) (c' c : Conn V) → Quiet c' c → Held P c → Held P c'
  Held-Quiet P c' c (same, told) (ss, e, k, a) =
      (ss, same ∙ e, k, subst (All (Told P)) (sym told) a)

  -- A request that the validator accepts, from its state `v`, on the stream `id`.
  abbrev pub Accepts : Validator V → V → Frame → ℕ → Type 0
  Accepts validate v f id =
      (f.frame_type ≡ frame_auth_request)
      × (f.stream_id ≡ id)
      × (req : AuthRequest) × (used : ℕ) × (decode_auth_request f.body ≡ ok (req, used))
      × (accepted (validate v req).0 ≡ true)

  abbrev pub MayUse : Option (Validator V) → V → Frame → ℕ → Type 0
  MayUse none v f id = ⊥
  MayUse (some validate) v f id = Accepts validate v f id

  grant_session-Held :
      (P : ℕ → Type 0) (c : Conn V) (id : ℕ) (resp : Result AuthResponse)
      → (accepted resp ≡ true → P id)
      → Held P c
      → Held P (grant_session c id resp)
  unfolding grant_session
  grant_session-Held P c id resp granted (ss, e, k, a) = elim (Bool-cases (accepted resp)) [
    | inr refused ↦ rw (e, refused) (ss, refl, k, a)
    | inl fine ↦
        rw (e, fine)
          (
            add_session id ss,
            refl,
            (λ j h. elim (contains-add_session id j ss h) [
              | inl old ↦ k j old
              | inr same ↦ subst P same (granted fine)
            ]),
            a,
          )
  ]

  incoming_open-Held :
      (P : ℕ → Type 0) (c : Conn V) (id : ℕ) (r : Result (OpenStream × ℕ))
      → (id ≡ 0) ⊎ P id
      → Held P c
      → Held P (incoming_open c id r)
  unfolding incoming_open emit
  incoming_open-Held P c id (ok (req, used)) free (ss, e, k, a) =
      (ss, e, k, All-append (Told P) c.events (incoming id req.address ∷ []) a (free, tt))
  incoming_open-Held P c id (err e') free held = held
  incoming_open-Held P c id panic free held = held

  on_open_stream-Held :
      (P : ℕ → Type 0) (u : Utf8) (c : Conn V) (f : Frame)
      → Held P c
      → Held P (on_open_stream u c f).1
  unfolding on_open_stream
  on_open_stream-Held P u c f (ss, e, k, a) = elim (Bool-cases (blocked c.sessions f.stream_id)) [
    | inl no_session ↦
        rw no_session (Held-Quiet P (send_frame c _).1 c (send_frame-Quiet c _) (ss, e, k, a))
    | inr free ↦
        let may : (f.stream_id ≡ 0) ⊎ P f.stream_id =
          elim (blocked_free ss f.stream_id (rw e at free)) [
            | inl zero_id ↦ inl zero_id
            | inr there ↦ inr (k f.stream_id there)
          ] in
        rw free (incoming_open-Held P c f.stream_id (decode_open_stream u f.body) may (ss, e, k, a))
  ]

  incoming_datagram-Held :
      (P : ℕ → Type 0) (c : Conn V) (r : Result (Datagram × ℕ))
      → Held P c
      → Held P (incoming_datagram c r)
  unfolding incoming_datagram emit
  incoming_datagram-Held P c (ok (dg, used)) (ss, e, k, a) =
      (ss, e, k, All-append (Told P) c.events (datagram dg ∷ []) a (tt, tt))
  incoming_datagram-Held P c (err e') held = held
  incoming_datagram-Held P c panic held = held

  on_datagram-Held :
      (P : ℕ → Type 0) (u : Utf8) (c : Conn V) (f : Frame) → Held P c → Held P (on_datagram u c f)
  unfolding on_datagram
  on_datagram-Held P u c f held = elim (Bool-cases (blocked c.sessions f.stream_id)) [
    | inl no_session ↦ rw no_session held
    | inr free ↦ rw free (incoming_datagram-Held P c (decode_datagram u f.body) held)
  ]

  validated-Held :
      (P : ℕ → Type 0) (validate : Validator V) (c : Conn V) (id : ℕ) (r : Result (AuthRequest × ℕ))
      → ((req : AuthRequest) (used : ℕ)
          → r ≡ ok (req, used)
          → accepted (validate c.shared req).0 ≡ true
          → P id)
      → Held P c
      → Held P (validated validate c id r).1
  unfolding validated
  validated-Held P validate c id (ok (req, used)) granted held =
      let (resp, shared') = validate c.shared req in
      let c' = record c { shared = shared' } in
      if-All (Held P) (id == 0)
        (λ zero_id. Held-Quiet P (deliver_request c' req) c' (deliver_request-Quiet c' req) held)
        (grant_session-Held P c' id resp (granted req used refl) held)
  validated-Held P validate c id (err e') granted held = held
  validated-Held P validate c id panic granted held = held

  on_auth_request-Held :
      (P : ℕ → Type 0) (auth : Option (Validator V)) (c : Conn V) (f : Frame)
      → (f.frame_type == frame_auth_request) ≡ true
      → Held P c
      → Held (λ id. P id ⊎ MayUse auth c.shared f id) (on_auth_request auth c f).1
  unfolding on_auth_request
  on_auth_request-Held P none c f is_request held = Held-weaken P _ c (λ id p. inl p) held
  on_auth_request-Held P (some validate) c f is_request held =
      let Q : ℕ → Type 0 = λ id. P id ⊎ Accepts validate c.shared f id in
      let r = decode_auth_request f.body in
      let (resp, c') = validated validate c f.stream_id r in
      let reply = Frame.new f.stream_id frame_auth_response (encode_auth_response [] resp) in
      Held-Quiet Q (send_frame c' reply).1 c' (send_frame-Quiet c' reply) (
        validated-Held Q validate c f.stream_id r
          (λ req used e fine. inr ((==_iff _ _).0 is_request, refl, req, used, e, fine))
          (Held-weaken P Q c (λ id p. inl p) held))

  pub dispatch-Held :
      (P : ℕ → Type 0) (u : Utf8) (auth : Option (Validator V)) (c : Conn V) (f : Frame)
      → Held P c
      → Held (λ id. P id ⊎ MayUse auth c.shared f id) (dispatch u auth c f).1
  dispatch-Held P u auth c f held =
      let Q : ℕ → Type 0 = λ id. P id ⊎ MayUse auth c.shared f id in
      let later : Held Q c = Held-weaken P Q c (λ id p. inl p) held in
      let quiet = λ (c' : Conn V) (q : Quiet c' c). Held-Quiet Q c' c q later in
      dispatch-All (λ x. Held Q x.1) u auth c f
        (λ is_request. on_auth_request-Held P auth c f is_request held)
        (quiet (on_auth_response c f) (on_auth_response-Quiet c f))
        (on_open_stream-Held Q u c f later)
        (quiet (on_open_stream_ack u c f) (on_open_stream_ack-Quiet u c f))
        (quiet (on_stream_data c f) (on_stream_data-Quiet c f))
        (quiet (on_stream_credit c f) (on_stream_credit-Quiet c f))
        (quiet (on_stream_close c f) (on_stream_close-Quiet c f)) (on_datagram-Held Q u c f later)
        (quiet (send_frame c (Frame.new 0 frame_pong f.body)).1
          (send_frame-Quiet c (Frame.new 0 frame_pong f.body)))
        later
