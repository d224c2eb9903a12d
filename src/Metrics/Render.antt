-- ===== src/Metrics/Render.antt =====
-- The text that crates/hydr-core/src/metrics.rs renders for Prometheus: `snapshot` and
-- `render_prometheus`. `u64::to_string` gives the decimal digits.
use hydr.Base.{ℕ, zero, suc, ◌+◌, ◌*◌, ◌/◌, ◌%◌, ◌^◌, ◌<◌, ◌≡◌, ap, ◌∙◌, arith, [], ◌∷◌, ◌++◌}
use hydr.Base.{ltb, lt→ltb, if◌then◌else◌, Bool-cases, inl, inr}
use hydr.Base.Results.{Text, text}
use hydr.Metrics.{Metrics}

-- `Ordering::Relaxed` loads, one after the other; nothing happens between them here.
pub record MetricsSnapshot : Type 0 where
  pub auth_ok : ℕ
  pub auth_bad_credentials : ℕ
  pub auth_replay : ℕ
  pub auth_unsupported : ℕ
  pub auth_rate_limited : ℕ
  pub streams_opened : ℕ
  pub datagrams_rx : ℕ
  pub datagrams_tx : ℕ
  pub udp_sessions_current : ℕ
  pub udp_sessions_created : ℕ
  pub udp_sessions_rejected : ℕ
  pub ws_datagrams_dropped : ℕ
  pub obfus_replay_dropped : ℕ
  pub obfus_invalid : ℕ
  pub ws_credit_waits : ℕ
  pub cc_window_bytes : ℕ

unfoldable pub snapshot : Metrics → MetricsSnapshot
snapshot m = record {
  auth_ok = m.auth_ok;
  auth_bad_credentials = m.auth_bad_credentials;
  auth_replay = m.auth_replay;
  auth_unsupported = m.auth_unsupported;
  auth_rate_limited = m.auth_rate_limited;
  streams_opened = m.streams_opened;
  datagrams_rx = m.datagrams_rx;
  datagrams_tx = m.datagrams_tx;
  udp_sessions_current = m.udp_sessions_current;
  udp_sessions_created = m.udp_sessions_created;
  udp_sessions_rejected = m.udp_sessions_rejected;
  ws_datagrams_dropped = m.ws_datagrams_dropped;
  obfus_replay_dropped = m.obfus_replay_dropped;
  obfus_invalid = m.obfus_invalid;
  ws_credit_waits = m.ws_credit_waits;
  cc_window_bytes = m.cc_window_bytes;
}

-- The digits of a number, `acc` behind them; a u64 has at most twenty.
unfoldable pub digits : ℕ → ℕ → Text → Text
digits zero n acc = acc
digits (suc fuel) n acc =
    let rest = digits fuel (n / 10) ((48 + n % 10) ∷ acc) in
    if ltb n 10 then (48 + n) ∷ acc else rest

unfoldable pub decimal_text : ℕ → Text
unfolding digits
decimal_text n = digits 20 n []

-- The closures `counter` and `gauge`, which differ in the type.
unfoldable pub metric : Text → Text → Text → Text → ℕ → Text
unfolding decimal_text
metric kind out name help v =
    out
    ++ (text "# HELP "
        ++ (name
            ++ (text " "
                ++ (help
                    ++ (text "\n# TYPE "
                        ++ (name
                            ++ (kind ++ (name ++ (text " " ++ (decimal_text v ++ text "\n"))))))))))

abbrev pub counter : Text → Text → Text → ℕ → Text
counter = metric (text " counter\n")

abbrev pub gauge : Text → Text → Text → ℕ → Text
gauge = metric (text " gauge\n")

unfoldable pub render_prometheus : Metrics → Text
unfolding snapshot metric
render_prometheus m =
    let s = snapshot m in
    let out1 =
      counter [] (text "hydr_auth_ok_total") (text "Successful tunnel authentications.")
        s.auth_ok in
    let out2 =
      counter out1 (text "hydr_auth_bad_credentials_total")
        (text "Auth rejections: bad credentials.") s.auth_bad_credentials in
    let out3 =
      counter out2 (text "hydr_auth_replay_total") (text "Auth rejections: nonce replay.")
        s.auth_replay in
    let out4 =
      counter out3 (text "hydr_auth_unsupported_total")
        (text "Auth rejections: unsupported version.") s.auth_unsupported in
    let out5 =
      counter out4 (text "hydr_auth_rate_limited_total")
        (text "Connections rejected by auth rate limiter.") s.auth_rate_limited in
    let out6 =
      counter out5 (text "hydr_streams_opened_total") (text "Proxy streams accepted.")
        s.streams_opened in
    let out7 =
      counter out6 (text "hydr_datagrams_rx_total") (text "Datagrams received from tunnels.")
        s.datagrams_rx in
    let out8 =
      counter out7 (text "hydr_datagrams_tx_total") (text "Datagrams sent into tunnels.")
        s.datagrams_tx in
    let out9 =
      gauge out8 (text "hydr_udp_sessions_current") (text "Currently tracked UDP sessions.")
        s.udp_sessions_current in
    let out10 =
      counter out9 (text "hydr_udp_sessions_created_total") (text "UDP sessions created.")
        s.udp_sessions_created in
    let out11 =
      counter out10 (text "hydr_udp_sessions_rejected_total")
        (text "UDP sessions rejected by caps (rate limited).") s.udp_sessions_rejected in
    let out12 =
      counter out11 (text "hydr_ws_datagrams_dropped_total")
        (text "UDP datagrams dropped on WS outbound queue overflow.") s.ws_datagrams_dropped in
    let out13 =
      counter out12 (text "hydr_obfus_replay_dropped_total")
        (text "WS frames silently dropped by anti-replay filter.") s.obfus_replay_dropped in
    let out14 =
      counter out13 (text "hydr_obfus_invalid_total")
        (text "WS frames failed MAC/length check (connection torn down).") s.obfus_invalid in
    let out15 =
      counter out14 (text "hydr_ws_credit_waits_total")
        (text "Times a WS stream paused on flow-control window exhaustion.") s.ws_credit_waits in
    let out16 =
      gauge out15 (text "hydr_cc_window_bytes") (text "Last brutal congestion window in bytes.")
        s.cc_window_bytes in
    out16

-- The number that some digits stand for, behind `acc`.
unfoldable pub read_digits : ℕ → Text → ℕ
read_digits acc [] = acc
read_digits acc (c ∷ cs) = read_digits (acc * 10 + (c % 48)) cs

-- The most that so many digits can write.
unfoldable pub limit : ℕ → ℕ
limit zero = 1
limit (suc k) = limit k * 10

pub read_digits-digits :
    (fuel n : ℕ) (tail : Text)
    → n < limit (suc fuel)
    → read_digits 0 (digits (suc fuel) n tail) ≡ read_digits n tail
unfolding digits read_digits limit
read_digits-digits zero n tail h =
    rw (lt→ltb n 10 (omega arith)) (ap (λ k. read_digits k tail) (omega arith))
read_digits-digits (suc fuel) n tail h = elim (Bool-cases (ltb n 10)) [
  | inl one ↦ rw one (ap (λ k. read_digits k tail) (ground (arith, one)))
  | inr more ↦ rw more (
      read_digits-digits fuel (n / 10) ((48 + n % 10) ∷ tail) (omega arith)
      ∙ ap (λ k. read_digits k tail) (omega arith))
]

-- The digits that are rendered for a u64 stand for its value.
pub read_digits-decimal_text : (n : ℕ) → n < 2 ^ 64 → read_digits 0 (decimal_text n) ≡ n
unfolding decimal_text limit read_digits
read_digits-decimal_text n h = read_digits-digits 19 n [] (omega arith)
