-- ===== src/Ws/Credit.antt =====
-- The flow control of a WebSocket stream, from the sender's counter to the reader's and back.
-- `pump_stream` queues a chunk first and counts it afterwards.
use hydr.Base.{
  ℕ, ◌+◌, ◌-◌, ◌≤◌, ◌<◌, ◌≡◌, refl, arith, List, [], ◌∷◌, ◌++◌, Bool, true, Option, none, some,
}
use hydr.Base.{ltb, leb, Bool-cases, inl, inr, ltb→lt, lt→ltb}
use hydr.Ws.{
  StreamCredit, CreditReader, new_credit, new_reader, window_open, sent, grant, poll_read,
  recv_window, credit_batch, chunk_len,
}

-- One direction of a stream: the counter of its sender, the chunk that is queued and not yet counted,
-- the bytes under way or not yet read, the reader, and the amounts of credit under way, oldest first.
pub record Link : Type 0 where
  pub credit : StreamCredit
  pub uncounted : ℕ
  pub unread : ℕ
  pub reader : CreditReader
  pub grants : List ℕ

unfoldable pub total : List ℕ → ℕ
total [] = 0
total (n ∷ ns) = n + total ns

abbrev pub queue : List ℕ → Option ℕ → List ℕ
queue ns none = ns
queue ns (some n) = ns ++ (n ∷ [])

-- What the two ends can do: put a chunk into the queue once the window is open and the last one is
-- counted, count it, read some of the bytes, and take in a credit frame, also before the count.
pub data Flows (id : ℕ) : Link → Type 0 where
  start : Flows id (record {
    credit = new_credit;
    uncounted = 0;
    unread = 0;
    reader = new_reader id;
    grants = [];
  })
  send :
      {l : Link} (n : ℕ)
      → Flows id l
      → l.uncounted ≡ 0
      → window_open l.credit ≡ true
      → n ≤ chunk_len
      → Flows id (record l { uncounted = n; unread = l.unread + n })
  count :
      {l : Link}
      → Flows id l
      → Flows id (record l { credit = sent l.credit l.uncounted; uncounted = 0 })
  read :
      {l : Link} (n : ℕ) (accepted : Bool)
      → Flows id l
      → n ≤ l.unread
      → Flows id (record l {
        unread = l.unread - n;
        reader = (poll_read l.reader n accepted).0;
        grants = queue l.grants (poll_read l.reader n accepted).1;
      })
  receive_credit :
      {l : Link} (n : ℕ) (ns : List ℕ)
      → Flows id l
      → l.grants ≡ n ∷ ns
      → Flows id (record l { credit = grant l.credit n; grants = ns })

total_snoc : (ns : List ℕ) (n : ℕ) → total (ns ++ (n ∷ [])) ≡ total ns + n
unfolding total
total_snoc [] n = omega arith
total_snoc (x ∷ ns) n = omega (arith, total_snoc ns n)

-- Reading moves bytes to the count of the reader or to the credit under way.
poll_read-total :
    (r : CreditReader) (n : ℕ) (accepted : Bool) (ns : List ℕ)
    → (poll_read r n accepted).0.pending + total (queue ns (poll_read r n accepted).1)
      ≡ r.pending + n + total ns
unfolding poll_read
poll_read-total r n accepted ns = elim (Bool-cases (ltb 0 n)) [
  | inr idle ↦ rw idle (ground (arith, idle))
  | inl some_bytes ↦ elim (Bool-cases (leb credit_batch (r.pending + n))) [
    | inr few ↦ rw (some_bytes, few) refl
    | inl many ↦ elim (Bool-cases accepted) [
      | inl taken ↦ rw (some_bytes, many, taken) (omega (arith, total_snoc ns (r.pending + n)))
      | inr full ↦ rw (some_bytes, many, full) refl
    ]
  ]
]

-- What the receiver has not given back.
abbrev pub owed : Link → ℕ
owed l = l.unread + l.reader.pending + total l.grants

-- With a chunk of at most a buffer that is not yet counted.
abbrev Balanced : Link → Type 0
Balanced l =
    (l.uncounted ≤ chunk_len)
    × (owed l ≤ l.credit.outstanding + l.uncounted)
    × (l.credit.outstanding + l.uncounted ≤ owed l + chunk_len)
    × (l.credit.outstanding + l.uncounted < recv_window + chunk_len)

-- Taking credit that is owed, where the subtraction stops at 0.
grant-balanced :
    (c : StreamCredit) (u n rest : ℕ)
    → u ≤ chunk_len
    → n + rest ≤ c.outstanding + u
    → c.outstanding + u ≤ n + rest + chunk_len
    → c.outstanding + u < recv_window + chunk_len
    → (rest ≤ (grant c n).outstanding + u)
      × ((grant c n).outstanding + u ≤ rest + chunk_len)
      × ((grant c n).outstanding + u < recv_window + chunk_len)
unfolding grant
grant-balanced c u n rest small low high bound = (omega arith, omega arith, omega arith)

Flows-Balanced : (id : ℕ) {l : Link} → Flows id l → Balanced l
unfolding sent window_open total
Flows-Balanced id start = (omega arith, omega arith, omega arith, omega arith)
Flows-Balanced id (send {l} n flows counted open_window small) =
    let (fits, low, high, bound) = Flows-Balanced id flows in
    let room = ltb→lt l.credit.outstanding recv_window open_window in
    (small, omega arith, omega arith, omega arith)
Flows-Balanced id (count {l} flows) =
    let (fits, low, high, bound) = Flows-Balanced id flows in
    (omega arith, omega arith, omega arith, omega arith)
Flows-Balanced id (read {l} n accepted flows enough) =
    let (fits, low, high, bound) = Flows-Balanced id flows in
    let moved = poll_read-total l.reader n accepted l.grants in
    (fits, omega arith, omega arith, bound)
Flows-Balanced id (receive_credit {l} n ns flows e) =
    let (fits, low, high, bound) = Flows-Balanced id flows in
    let low' : l.unread + l.reader.pending + (n + total ns) ≤ l.credit.outstanding + l.uncounted =
      rw e at low in
    let high' : l.credit.outstanding + l.uncounted
        ≤ l.unread + l.reader.pending + (n + total ns) + chunk_len =
      rw e at high in
    let rest = l.unread + l.reader.pending + total ns in
    let (low2, high2, bound2) =
      grant-balanced l.credit l.uncounted n rest fits (omega arith) (omega arith) bound in
    (fits, low2, high2, bound2)

-- However the sender queues and counts its chunks and takes in credit, and the reader reads, the counter
-- with the chunk that is not yet counted is at least the bytes not yet read, those that the reader has
-- counted and the credit under way, exceeds them by a chunk at most, and the window by less than a chunk.
pub outstanding_lem :
    (id : ℕ) {l : Link}
    → Flows id l
    → (owed l ≤ l.credit.outstanding + l.uncounted)
      × (l.credit.outstanding + l.uncounted ≤ owed l + chunk_len)
      × (l.credit.outstanding + l.uncounted < recv_window + chunk_len)
outstanding_lem id flows =
    let (fits, low, high, bound) = Flows-Balanced id flows in (low, high, bound)

-- Once everything was read and no credit is under way, the window is open, unless the reader keeps at
-- least a batch back because the queue had no room for its credit frame.
pub window_open-drained :
    (id : ℕ) {l : Link}
    → Flows id l
    → l.unread ≡ 0
    → l.grants ≡ []
    → l.reader.pending < credit_batch
    → window_open l.credit ≡ true
unfolding window_open total
window_open-drained id {l} flows drained no_grants few =
    let (low, high, bound) = outstanding_lem id flows in
    let high' : l.credit.outstanding + l.uncounted ≤ l.unread + l.reader.pending + 0 + chunk_len =
      rw no_grants at high in
    lt→ltb _ _ (omega arith)
