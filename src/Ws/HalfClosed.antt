-- ===== src/Ws/HalfClosed.antt =====
-- crates/hydr-transport/src/ws.rs: the flow control of a stream whose other end has stopped sending.
use hydr.Base.{
  ℕ, ◌+◌, ◌≤◌, ◌<◌, ◌≡◌, refl, sym, ap, subst, ◌∙◌, arith, List, [], ◌∷◌, Option, none, some, All,
  if◌then◌else◌, Bool-cases, inl, inr, ltb→lt, ◌==◌,
}
use hydr.Base.Maps.{get, put, remove_entry}
use hydr.Base.Results.{Result, ok, err, panic}
use hydr.Base.Utf8.{Utf8}
use hydr.Ws.{StreamCredit, window_open, sent, credit_frame, recv_window, chunk_len}
use hydr.Ws.Dispatch.{dispatch, on_stream_close, on_stream_credit, grant_credit}
use hydr.Ws.Pump.{close_frame}
use hydr.Ws.Session.{Conn, Validator}

-- What happens to a stream that still sends: its task reads a chunk, or the other end gives credit back.
pub data Move : Type 0 where
  chunk : ℕ → Move
  credit : ℕ → Move

-- The counter that `pump_stream` shares with the table, as long as the table has it.
abbrev pub shared : Option StreamCredit → StreamCredit → StreamCredit
shared none own = own
shared (some k) own = k

module _ {V : Type 0} (u : Utf8) (auth : Option (Validator V)) (id : ℕ) where
  -- The connection, the counter of the task, and the bytes that it has sent.
  abbrev pub Sender : Type 0
  Sender = Conn V × (StreamCredit × ℕ)

  -- The task has counted what it sent, in the counter of the table as long as the table has it.
  unfoldable pub counted : Option StreamCredit → StreamCredit → Conn V → Conn V
  unfolding put
  counted none own c = c
  counted (some k) own c = record c { credits = put id own c.credits }

  -- A chunk is sent if the window is open, and otherwise waits.
  unfoldable pub move : Sender → Move → Sender
  unfolding window_open sent credit_frame dispatch counted
  move (c, (own, total)) (chunk n) =
      if window_open own
      then (counted (get id c.credits) (sent own n) c, (sent own n, total + n))
      else (c, (own, total))
  move (c, (own, total)) (credit amt) =
      let c' = (dispatch u auth c (credit_frame id amt)).1 in
      (c', (shared (get id c'.credits) own, total))

  unfoldable pub moves : Sender → List Move → Sender
  unfolding move
  moves s [] = s
  moves s (m ∷ ms) = moves (move s m) ms

  abbrev pub Small : Move → Type 0
  Small (chunk n) = n ≤ chunk_len
  Small (credit amt) = Unit

  grant_credit-gone :
      (c : Conn V) (r : Result (ℕ × ℕ)) → get id c.credits ≡ none → grant_credit c id r ≡ c
  unfolding grant_credit
  grant_credit-gone c (ok (amt, used)) gone = rw (gone, grant_credit) refl
  grant_credit-gone c (err e) gone = refl
  grant_credit-gone c panic gone = refl

  dispatch-credit :
      (c : Conn V) (amt : ℕ)
      → get id c.credits ≡ none
      → (dispatch u auth c (credit_frame id amt)).1 ≡ c
  unfolding dispatch on_stream_credit credit_frame
  dispatch-credit c amt gone = elim (Bool-cases (id == 0)) [
    | inl zero_id ↦ rw zero_id refl
    | inr other ↦ rw other (grant_credit-gone c _ gone)
  ]

  -- The connection without an entry, and what the counter says of the bytes sent since.
  abbrev Cut : Conn V → ℕ → Sender → Type 0
  Cut c start (c', (own, total)) =
      (c' ≡ c) × (own.outstanding ≡ start + total) × (own.outstanding < recv_window + chunk_len)

  move-Cut :
      (c : Conn V) (start : ℕ) (m : Move) (s : Sender)
      → get id c.credits ≡ none
      → Small m
      → Cut c start s
      → Cut c start (move s m)
  unfolding move window_open sent counted
  move-Cut c start (chunk n) (c', (own, total)) gone fits (same, sum, bound) =
      elim (Bool-cases (window_open own)) [
        | inl room ↦
            let free = ltb→lt own.outstanding recv_window room in
            let absent : get id c'.credits ≡ none =
              ap (λ (x : Conn V). get id x.credits) same ∙ gone in
            rw (room, absent, counted) (same, omega arith, omega arith)
        | inr full ↦ rw full (same, sum, bound)
      ]
  move-Cut c start (credit amt) (c', (own, total)) gone fits (same, sum, bound) =
      let c'' = (dispatch u auth c' (credit_frame id amt)).1 in
      let kept : c'' ≡ c =
        dispatch-credit c' amt (ap (λ (x : Conn V). get id x.credits) same ∙ gone) ∙ same in
      let own_kept : shared (get id c''.credits) own ≡ own =
        ap (λ (x : Conn V). shared (get id x.credits) own) kept ∙ ap (λ o. shared o own) gone in
      (
        kept,
        ap (λ (k : StreamCredit). k.outstanding) own_kept ∙ sum,
        subst (λ (k : StreamCredit). k.outstanding < recv_window + chunk_len) (sym own_kept) bound,
      )

  moves-Cut :
      (c : Conn V) (start : ℕ) (ms : List Move) (s : Sender)
      → get id c.credits ≡ none
      → All Small ms
      → Cut c start s
      → Cut c start (moves s ms)
  unfolding moves
  moves-Cut c start [] s gone small cut = cut
  moves-Cut c start (m ∷ ms) s gone (fits, small) cut =
      moves-Cut c start ms (move s m) gone small (move-Cut c start m s gone fits cut)

  -- Once the other end has sent STREAM_CLOSE, and the table had one entry for the stream, the credit that it gives back for
  -- what it still reads is dropped: the task that sends to it sends, over any chunks and any credit, less than the
  -- window and a chunk, from the counter that it had.
  pub moves-closed :
      (c : Conn V) (own : StreamCredit) (ms : List Move)
      → get id (remove_entry id c.credits) ≡ none
      → own.outstanding < recv_window + chunk_len
      → All Small ms
      → own.outstanding + (moves ((dispatch u auth c (close_frame id)).1, (own, 0)) ms).1.1
        < recv_window + chunk_len
  unfolding dispatch on_stream_close
  moves-closed c own ms gone bound small =
      let closed = (dispatch u auth c (close_frame id)).1 in
      let (same, sum, below) =
        moves-Cut closed own.outstanding ms (closed, (own, 0)) gone small
          (refl, omega arith, bound) in
      omega arith
