-- ===== src/Quic/Lost.antt =====
-- What `Tunnel::next_event` of crates/hydr-transport/src/lib.rs does to a stream whose request is still on its way.
use hydr.Base.{
  ℕ, ◌≡◌, ◌≢◌, refl, ap, ◌∙◌, List, [], ◌∷◌, Bool, true, false, Option, none, some, All, All-append,
}
use hydr.Base.Maps.{get}
use hydr.Address.{Address}
use hydr.Message.{Datagram}
use hydr.Quic.Events.{
  Connection, ServerEvent, stream, datagram, take_stream, read_open, poll_datagram, poll, Happening,
  opened, requested, sent, polled, happen, with_event, next_events,
}

module _ (id : ℕ) where
  abbrev NotTaken : Option ℕ → Type 0
  NotTaken none = Unit
  NotTaken (some j) = j ≢ id

  -- Nobody has the stream.
  abbrev Gone : Connection → Type 0
  Gone c = All (λ j. j ≢ id) c.streams × NotTaken c.accepting

  -- The event is not of that stream, and the happening does not open one of that number.
  abbrev pub Other : ServerEvent → Type 0
  Other (stream j addr) = j ≢ id
  Other (datagram d) = Unit

  abbrev pub OpensOther : Happening → Type 0
  OpensOther (opened j) = j ≢ id
  OpensOther (requested j addr) = Unit
  OpensOther (sent d) = Unit
  OpensOther (polled stream_first) = Unit

  abbrev OtherEvent : Option ServerEvent → Type 0
  OtherEvent none = Unit
  OtherEvent (some ev) = Other ev

  take_stream-Gone : (c : Connection) → Gone c → Gone (take_stream c)
  unfolding take_stream
  take_stream-Gone c gone = taken c.streams c.accepting gone
    where
      taken :
          (ids : List ℕ) (a : Option ℕ)
          → All (λ j. j ≢ id) ids × NotTaken a
          → Gone (elim a as (λ x. Connection) [
            | some j ↦ record c { streams = ids; accepting = a }
            | none ↦ elim ids as (λ x. Connection) [
              | [] ↦ record c { streams = ids; accepting = a }
              | j ∷ js ↦ record c { streams = js; accepting = some j }
            ]
          ])
      taken ids (some j) gone = gone
      taken [] none gone = gone
      taken (j ∷ js) none ((other, all), none_taken) = (all, other)

  abbrev Fine : Connection × Option ServerEvent → Type 0
  Fine r = Gone r.0 × OtherEvent r.1

  abbrev OtherOpen : Option (ℕ × Address) → Type 0
  OtherOpen none = Unit
  OtherOpen (some (j, addr)) = j ≢ id

  read_open-Other : (c : Connection) → Gone c → OtherOpen (read_open c)
  unfolding read_open
  read_open-Other c (all, free) = opening c.accepting free
    where
      found :
          (j : ℕ) (o : Option Address)
          → j ≢ id
          → OtherOpen
              (elim o as (λ x. Option (ℕ × Address)) [ none ↦ none | some addr ↦ some (j, addr) ])
      found j none other = tt
      found j (some addr) other = other

      opening :
          (a : Option ℕ)
          → NotTaken a
          → OtherOpen (elim a as (λ x. Option (ℕ × Address)) [
            | none ↦ none
            | some j ↦ elim (get j c.requests) [ none ↦ none | some addr ↦ some (j, addr) ]
          ])
      opening none free = tt
      opening (some j) other = found j (get j c.requests) other

  poll_datagram-Fine : (c : Connection) → Gone c → Fine (poll_datagram c)
  unfolding poll_datagram
  poll_datagram-Fine c (all, free) = polled_with c.datagrams
    where
      polled_with :
          (ds : List Datagram)
          → Fine (elim ds as (λ x. Connection × Option ServerEvent) [
            | [] ↦ (c, none)
            | d ∷ rest ↦ (record c { datagrams = rest; accepting = none }, some (datagram d))
          ])
      polled_with [] = ((all, free), tt)
      polled_with (d ∷ rest) = ((all, tt), tt)

  -- Either what was read, or what the other branch gives.
  read_or :
      (c : Connection) (o : Option (ℕ × Address)) (r : Connection × Option ServerEvent)
      → Gone c
      → OtherOpen o
      → Fine r
      → Fine (elim o as (λ x. Connection × Option ServerEvent) [
        | some (j, addr) ↦ (record c { accepting = none }, some (stream j addr))
        | none ↦ r
      ])
  read_or c none r gone other fine = fine
  read_or c (some (j, addr)) r (all, free) other fine = ((all, tt), other)

  poll-Fine : (stream_first : Bool) (c : Connection) → Gone c → Fine (poll stream_first c)
  unfolding poll poll_datagram
  poll-Fine true c gone =
      let gone' = take_stream-Gone c gone in
      read_or (take_stream c) (read_open (take_stream c)) (poll_datagram (take_stream c)) gone'
        (read_open-Other (take_stream c) gone') (poll_datagram-Fine (take_stream c) gone')
  poll-Fine false c gone = datagrams_first c.datagrams refl
    where
      gone' : Gone (take_stream c)
      gone' = take_stream-Gone c gone

      datagrams_first :
          (ds : List Datagram)
          → c.datagrams ≡ ds
          → Fine (elim ds as (λ x. Connection × Option ServerEvent) [
            | d ∷ rest ↦ poll_datagram c
            | [] ↦ elim (read_open (take_stream c)) as (λ x. Connection × Option ServerEvent) [
              | some (j, addr) ↦ (record (take_stream c) { accepting = none }, some (stream j addr))
              | none ↦ (take_stream c, none)
            ]
          ])
      datagrams_first (d ∷ rest) e = poll_datagram-Fine c gone
      datagrams_first [] e =
          read_or (take_stream c) (read_open (take_stream c)) (take_stream c, none) gone'
            (read_open-Other (take_stream c) gone') (gone', tt)

  happen-Fine : (c : Connection) (h : Happening) → Gone c → OpensOther h → Fine (happen c h)
  unfolding happen
  happen-Fine c (opened j) (all, free) other =
      ((All-append (λ k. k ≢ id) c.streams (j ∷ []) all (other, tt), free), tt)
  happen-Fine c (requested j addr) gone other = (gone, tt)
  happen-Fine c (sent d) gone other = (gone, tt)
  happen-Fine c (polled stream_first) gone other = poll-Fine stream_first c gone

  next_events-Other :
      (hs : List Happening) (c : Connection)
      → Gone c
      → All OpensOther hs
      → All Other (next_events c hs)
  unfolding next_events
  next_events-Other [] c gone others = tt
  next_events-Other (h ∷ hs) c gone (other, others) =
      let (gone', fine) = happen-Fine c h gone other in
      joined (happen c h).1 (next_events (happen c h).0 hs) fine
        (next_events-Other hs (happen c h).0 gone' others)
    where
      joined :
          (o : Option ServerEvent) (evs : List ServerEvent)
          → OtherEvent o
          → All Other evs
          → All Other (with_event o evs)
      joined none evs fine all = all
      joined (some ev) evs fine all = (fine, all)

  take_stream-next :
      (c : Connection) (ids : List ℕ)
      → c.accepting ≡ none
      → c.streams ≡ id ∷ ids
      → take_stream c ≡ record c { streams = ids; accepting = some id }
  unfolding take_stream
  take_stream-next c ids free next = rw (free, next, take_stream) refl

  read_open-unread :
      (c : Connection) → c.accepting ≡ some id → get id c.requests ≡ none → read_open c ≡ none
  unfolding read_open
  read_open-unread c taken unread = rw (taken, unread, read_open) refl

  poll_datagram-waiting :
      (c : Connection) (d : Datagram) (ds : List Datagram)
      → c.datagrams ≡ d ∷ ds
      → poll_datagram c ≡ (record c { datagrams = ds; accepting = none }, some (datagram d))
  unfolding poll_datagram
  poll_datagram-waiting c d ds waiting = rw (waiting, poll_datagram) refl

  poll-unread :
      (c : Connection)
      → read_open (take_stream c) ≡ none
      → poll true c ≡ poll_datagram (take_stream c)
  unfolding poll
  poll-unread c unread = rw (unread, poll) refl

  lost :
      (c : Connection) (ids : List ℕ) (d : Datagram) (ds : List Datagram)
      → c.accepting ≡ none
      → c.streams ≡ id ∷ ids
      → get id c.requests ≡ none
      → c.datagrams ≡ d ∷ ds
      → poll true c
        ≡ (record c { streams = ids; accepting = none; datagrams = ds }, some (datagram d))
  lost c ids d ds free next unread waiting =
      let c' : Connection = record c { streams = ids; accepting = some id } in
      let took = take_stream-next c ids free next in
      poll-unread c (ap read_open took ∙ read_open-unread c' refl unread)
      ∙ ap poll_datagram took
      ∙ poll_datagram-waiting c' d ds waiting

  -- A stream that a peer has opened and whose request is still on its way is lost if a datagram is waiting when the server
  -- polls for its next event and takes the stream first: the datagram is the event, and whatever happens then, the request of the
  -- stream included, no event is of that stream, as long as no other stream is opened under its number.
  pub next_events-lost :
      (c : Connection) (ids : List ℕ) (d : Datagram) (ds : List Datagram) (hs : List Happening)
      → c.accepting ≡ none
      → c.streams ≡ id ∷ ids
      → All (λ j. j ≢ id) ids
      → get id c.requests ≡ none
      → c.datagrams ≡ d ∷ ds
      → All OpensOther hs
      → (evs : List ServerEvent) × (next_events c (polled true ∷ hs) ≡ datagram d ∷ evs)
        × All Other evs
  unfolding next_events happen
  next_events-lost c ids d ds hs free next others unread waiting opens =
      let c' : Connection = record c { streams = ids; accepting = none; datagrams = ds } in
      (
        next_events c' hs,
        ap (λ (x : Connection × Option ServerEvent). with_event x.1 (next_events x.0 hs))
            (lost c ids d ds free next unread waiting),
        next_events-Other hs c' (others, tt) opens,
      )
