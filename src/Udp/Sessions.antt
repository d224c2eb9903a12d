-- ===== src/Udp/Sessions.antt =====
-- The invariant of the UDP table, which each of its steps keeps, and the separation of clients.
use hydr.Base.{ℕ, suc, ◌+◌, ◌^◌, ◌≤◌, ◌<◌, ◌≡◌, refl, sym, ap, ◌∙◌, arith, List, [], ◌∷◌, some}
use hydr.Base.{length, leb, if◌then◌else◌, Bool-cases, Option-cases, inl, inr}
use hydr.Base.Results.{Result, ok, err, panic}
use hydr.Base.Sets.{bytes_eq, nat_eq}
use hydr.Metrics.{Metrics, incr, decr}
use hydr.Udp.{
  SessionKey, UdpSession, UdpManager, find, touch, remove_key, count_of, with_limits,
  remove_session, remove_all, sweep, stale, admit, bind_session, drop_session, open_session, reject,
  forward, send_on, after_send,
}
use hydr.Udp.Counts.{
  sessions_of, Owned, one_if, touch-sessions, remove_key-sessions, increment_per_ip-count_of,
  decrement_per_ip-count_of,
}

-- Each address's counter is the number of its sessions, the caps are kept, and the gauge of current
-- sessions is their number.
pub record IsConsistent (m : UdpManager) : Type 0 where
  pub counted : (ip : List ℕ) → count_of ip m.per_ip ≡ sessions_of ip m.sessions
  pub owned : Owned m.sessions
  pub total : length m.sessions ≤ m.max_sessions
  pub each : (ip : List ℕ) → sessions_of ip m.sessions ≤ m.max_per_ip
  pub usize : m.max_sessions < 2 ^ 64
  pub gauge : m.metrics.udp_sessions_current ≡ length m.sessions

pub with_limits-IsConsistent :
    (max_sessions max_per_ip : ℕ) (metrics : Metrics)
    → max_sessions < 2 ^ 64
    → metrics.udp_sessions_current ≡ 0
    → IsConsistent (with_limits max_sessions max_per_ip metrics)
unfolding with_limits count_of sessions_of
with_limits-IsConsistent max_sessions max_per_ip metrics h zero_gauge = record {
  counted = λ ip. refl;
  owned = tt;
  total = omega arith;
  each = λ ip. omega arith;
  usize = ground (arith, h);
  gauge = zero_gauge;
}

drop_session-IsConsistent :
    (m : UdpManager) (key : SessionKey) (s : UdpSession)
    → IsConsistent m
    → find key m.sessions ≡ some s
    → IsConsistent (drop_session m key s)
unfolding drop_session decr
drop_session-IsConsistent m key s v present =
    let at : (ip : List ℕ)
        → sessions_of ip m.sessions
          ≡ one_if (bytes_eq.beq key.0 ip) + sessions_of ip (remove_key key m.sessions) =
      λ ip. (remove_key-sessions key m.sessions ip s v.owned present).0 in
    let (_, size, owned, owner) = remove_key-sessions key m.sessions [] s v.owned present in
    record {
      counted = λ ip.
          decrement_per_ip-count_of m.per_ip s.owner ip
          ∙ rw owner (omega (arith, v.counted ip, at ip));
      owned = owned;
      total = omega (arith, v.total, size);
      each = λ ip. omega (arith, v.each ip, at ip);
      usize = v.usize;
      gauge = rw v.gauge (omega (arith, size, v.total, v.usize));
    }

-- Removing a session, present or not, keeps the counters in step with the table.
pub remove_session-IsConsistent :
    (m : UdpManager) (key : SessionKey) → IsConsistent m → IsConsistent (remove_session m key)
unfolding remove_session
remove_session-IsConsistent m key v = elim (Option-cases (find key m.sessions)) [
  | inl absent ↦ rw (absent, remove_session) v
  | inr (s, present) ↦ rw (present, remove_session) (drop_session-IsConsistent m key s v present)
]

remove_all-IsConsistent :
    (keys : List SessionKey) (m : UdpManager) → IsConsistent m → IsConsistent (remove_all m keys)
unfolding remove_all
remove_all-IsConsistent [] m v = v
remove_all-IsConsistent (key ∷ keys) m v =
    remove_all-IsConsistent keys (remove_session m key) (remove_session-IsConsistent m key v)

-- So does a sweep.
pub sweep-IsConsistent : (m : UdpManager) (now : ℕ) → IsConsistent m → IsConsistent (sweep m now)
unfolding sweep
sweep-IsConsistent m now v = remove_all-IsConsistent (stale now m.sessions) m v

touch-IsConsistent :
    (m : UdpManager) (now : ℕ) (key : SessionKey)
    → IsConsistent m
    → IsConsistent (record m { sessions = touch now key m.sessions })
touch-IsConsistent m now key v =
    let at : (ip : List ℕ) → sessions_of ip (touch now key m.sessions) ≡ sessions_of ip m.sessions =
      λ ip. (touch-sessions now key m.sessions ip v.owned).0 in
    let (_, size, owned) = touch-sessions now key m.sessions [] v.owned in
    record {
      counted = λ ip. v.counted ip ∙ sym (at ip);
      owned = owned;
      total = omega (arith, v.total, size);
      each = λ ip. omega (arith, v.each ip, at ip);
      usize = v.usize;
      gauge = v.gauge ∙ sym size;
    }

reject-IsConsistent : (m : UdpManager) → IsConsistent m → IsConsistent (reject m)
unfolding reject
reject-IsConsistent m v = record {
  counted = v.counted;
  owned = v.owned;
  total = v.total;
  each = v.each;
  usize = v.usize;
  gauge = v.gauge;
}

open_session-IsConsistent :
    (m : UdpManager) (now socket : ℕ) (key : SessionKey)
    → IsConsistent m
    → length m.sessions < m.max_sessions
    → count_of key.0 m.per_ip < m.max_per_ip
    → IsConsistent (open_session m now socket key)
unfolding open_session sessions_of incr
open_session-IsConsistent m now socket key v room free =
    let more : (ip : List ℕ)
        → (if bytes_eq.beq key.0 ip
            then suc (sessions_of ip m.sessions)
            else sessions_of ip m.sessions)
          ≡ one_if (bytes_eq.beq key.0 ip) + sessions_of ip m.sessions =
      λ ip. ground arith in
    record {
      counted = λ ip.
          increment_per_ip-count_of m.per_ip key.0 ip
          ∙ ap (λ n. one_if (bytes_eq.beq key.0 ip) + n) (v.counted ip)
          ∙ sym (more ip);
      owned = (refl, v.owned);
      total = omega arith;
      each = λ ip. elim (Bool-cases (bytes_eq.beq key.0 ip)) [
        | inl same ↦
            let p : key.0 ≡ ip = (bytes_eq.beq_iff key.0 ip).0 same in
            let here : sessions_of ip m.sessions < m.max_per_ip =
              rw (← p) (omega (arith, free, v.counted key.0)) in
            rw same (omega arith)
        | inr other ↦ rw other (v.each ip)
      ];
      usize = v.usize;
      gauge = rw v.gauge (omega (arith, room, v.usize));
    }

bind_session-IsConsistent :
    (m : UdpManager) (now : ℕ) (key : SessionKey) (bind : Result ℕ)
    → IsConsistent m
    → length m.sessions < m.max_sessions
    → count_of key.0 m.per_ip < m.max_per_ip
    → IsConsistent (bind_session m now key bind).1
unfolding bind_session
bind_session-IsConsistent m now key (ok socket) v room free =
    open_session-IsConsistent m now socket key v room free
bind_session-IsConsistent m now key (err e) v room free = v
bind_session-IsConsistent m now key panic v room free = v

-- So does an admission, whether it finds the session, makes one, or is refused.
pub admit-IsConsistent :
    (m : UdpManager) (now : ℕ) (bind : Result ℕ) (key : SessionKey)
    → IsConsistent m
    → IsConsistent (admit m now bind key).1
unfolding admit
admit-IsConsistent m now bind key v = elim (Option-cases (find key m.sessions)) [
  | inr (s, present) ↦ rw (present, admit) (touch-IsConsistent m now key v)
  | inl absent ↦ elim (Bool-cases (leb m.max_sessions (length m.sessions))) [
    | inl full ↦ rw (absent, full, admit) (reject-IsConsistent m v)
    | inr room ↦ elim (Bool-cases (leb m.max_per_ip (count_of key.0 m.per_ip))) [
      | inl busy ↦ rw (absent, room, busy, admit) (reject-IsConsistent m v)
      | inr free ↦
          rw (absent, room, free, admit)
            (bind_session-IsConsistent m now key bind v (ground (arith, room))
              (ground (arith, free)))
    ]
  ]
]

-- What may happen to the table: a datagram, with whatever binding, resolving and sending give, the
-- removal of a session, and a sweep.
pub data Event : Type 1 where
  datagram :
      {Target : Type 0} (now : ℕ) (bind : Result ℕ) (key : SessionKey) (resolve : Result Target)
      (send : ℕ → Target → Result (Unit {0}))
      → Event
  removal : (key : SessionKey) → Event
  sweep_turn : (now : ℕ) → Event

unfoldable pub step : UdpManager → Event → UdpManager
unfolding forward remove_session sweep
step m (datagram now bind key resolve send) = (forward m now bind key resolve send).1
step m (removal key) = remove_session m key
step m (sweep_turn now) = sweep m now

unfoldable pub steps : UdpManager → List Event → UdpManager
steps m [] = m
steps m (e ∷ es) = steps (step m e) es

send_on-IsConsistent :
    {Target : Type 0} (m : UdpManager) (key : SessionKey) (socket : Result ℕ)
    (resolve : Result Target) (send : ℕ → Target → Result (Unit {0}))
    → IsConsistent m
    → IsConsistent (send_on m key socket resolve send).1
unfolding send_on after_send
send_on-IsConsistent m key panic resolve send v = v
send_on-IsConsistent m key (err e) resolve send v = v
send_on-IsConsistent m key (ok socket) panic send v = v
send_on-IsConsistent m key (ok socket) (err e) send v = v
send_on-IsConsistent m key (ok socket) (ok target) send v = sent (send socket target)
  where
    sent : (r : Result (Unit {0})) → IsConsistent (after_send m key r).1
    sent (ok done) = v
    sent (err e) = remove_session-IsConsistent m key v
    sent panic = v

steps-IsConsistent : (es : List Event) (m : UdpManager) → IsConsistent m → IsConsistent (steps m es)
unfolding steps step forward
steps-IsConsistent [] m v = v
steps-IsConsistent (datagram now bind key resolve send ∷ es) m v = steps-IsConsistent es _ (
    send_on-IsConsistent (admit m now bind key).1 key (admit m now bind key).0 resolve send
      (admit-IsConsistent m now bind key v))
steps-IsConsistent (removal key ∷ es) m v =
    steps-IsConsistent es _ (remove_session-IsConsistent m key v)
steps-IsConsistent (sweep_turn now ∷ es) m v = steps-IsConsistent es _ (sweep-IsConsistent m now v)

-- After any datagrams, removals and sweeps from a new table, each address's counter is the number of
-- its sessions, neither the cap of an address nor the global one is exceeded, and the gauge of current
-- sessions is their number.
pub steps-new :
    (max_sessions max_per_ip : ℕ) (metrics : Metrics) (es : List Event)
    → max_sessions < 2 ^ 64
    → metrics.udp_sessions_current ≡ 0
    → IsConsistent (steps (with_limits max_sessions max_per_ip metrics) es)
steps-new max_sessions max_per_ip metrics es h zero_gauge =
    steps-IsConsistent es _ (with_limits-IsConsistent max_sessions max_per_ip metrics h zero_gauge)
