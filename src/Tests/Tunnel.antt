-- ===== src/Tests/Tunnel.antt =====
-- The theorems about the replay filter, the obfuscation, the QUIC handshake, the UDP table and the
-- congestion window at concrete inputs.
use hydr.Base.{ℕ, ◌*◌, ◌≤◌, ◌≡◌, refl, arith, List, [], ◌∷◌, ◌++◌, max, true}
use hydr.Base.Blake3.{toy}
use hydr.Base.Results.{Result, err, message, text, ◌>>=◌}
use hydr.Base.Results as Results
use hydr.Base.Sets.{nat_eq}
use hydr.Metrics
use hydr.Replay
use hydr.Replay.{observe, observe_all}
use hydr.Replay.History.{fresh_all, observe_all-new}
use hydr.Obfuscator
use hydr.Obfuscator.{Obfuscator, DecryptOutcome, encrypt, decrypt_outcome, tag}
use hydr.Obfuscator.Forgery.{decrypt-bad_tag}
use hydr.Obfuscator.Stream.{receive_all, send_all, receive_all-send_all}
use hydr.Address.{Address}
use hydr.Message.{AuthRequest, AuthResponse, OpenStreamAck}
use hydr.Message.RoundTrip.{Fits}
use hydr.Base.{◌<◌, ◌+◌}
use hydr.Base.Blake3.{repeat}
use hydr.Ws.{window_open, sent, grant, poll_read, recv_window, chunk_len}
use hydr.Ws.Credit.{Link, Flows, start, send, count, read, receive_credit, owed, outstanding_lem}
use hydr.Udp.{with_limits}
use hydr.Udp.Sessions.{IsConsistent, Event, datagram, removal, sweep_turn, steps, steps-new}
use hydr.Cc.{window, min_window_bytes, max_window_bytes}
use hydr.Cc
use hydr.Cc.Window.{on_events, window-bounds}
use hydr.Cc.Window as Window

abbrev seqs : List ℕ
seqs = 1 ∷ 2 ∷ 2 ∷ 9 ∷ 1 ∷ []

observe_all-new_example : (observe_all (Replay.new 4) seqs).1 ≡ fresh_all 4 [] seqs
observe_all-new_example = observe_all-new 4 seqs

abbrev key : List ℕ
key = 7 ∷ 7 ∷ []

abbrev salt : List ℕ
salt = 1 ∷ 2 ∷ 3 ∷ 4 ∷ 5 ∷ 6 ∷ 7 ∷ 8 ∷ []

abbrev other_salt : List ℕ
other_salt = 8 ∷ 7 ∷ 6 ∷ 5 ∷ 4 ∷ 3 ∷ 2 ∷ 1 ∷ []

abbrev side : Obfuscator
side = Obfuscator.new toy key

receive_all-send_all_example :
    receive_all toy Metrics.new
      (Obfuscator.new toy key)
      (send_all toy (Obfuscator.new toy key) ((salt, 5 ∷ []) ∷ ((other_salt, []) ∷ [])))
    ≡ DecryptOutcome.ok (5 ∷ []) ∷ (DecryptOutcome.ok [] ∷ [])
receive_all-send_all_example =
    receive_all-send_all toy key ((salt, 5 ∷ []) ∷ ((other_salt, []) ∷ [])) Metrics.new
      (omega arith) (refl, (refl, tt))

abbrev no_tag : List ℕ
no_tag = salt ++ (other_salt)

decrypt-bad_tag_example :
    ((decrypt_outcome toy Metrics.new side (salt ++ (salt ++ no_tag))).0 ≡ DecryptOutcome.invalid)
    × ((decrypt_outcome toy Metrics.new side (salt ++ (salt ++ no_tag))).1 ≡ side)
unfolding Obfuscator.new tag
decrypt-bad_tag_example =
    decrypt-bad_tag toy Metrics.new side salt salt no_tag refl (omega arith) refl (λ p. cc)

window-bounds_example :
    let c = on_events (Cc.new 8000000 1200) (Window.ack 20000000 ∷ []) in
    (min_window_bytes ≤ window c)
    × (c.mtu * 2 ≤ window c)
    × (window c ≤ max max_window_bytes (c.mtu * 2))
    × (c.rate_bps ≡ 8000000)
window-bounds_example = window-bounds 8000000 1200 (Window.ack 20000000 ∷ [])

abbrev events : List Event
events =
    datagram {Target = ℕ} 5 (Results.ok 3) (1 ∷ [], 9) (Results.ok 4)
      (λ socket target. Results.ok tt)
    ∷ (sweep_turn 6 ∷ (removal (1 ∷ [], 9) ∷ []))

steps-new_example : IsConsistent (steps (with_limits 2 1 Metrics.new) events)
steps-new_example = steps-new 2 1 Metrics.new events (omega arith) refl

abbrev nobody : AuthRequest
nobody = record {
  version = 1;
  auth_method = 1;
  client_nonce = salt;
  auth_proof = salt;
  cc_rx = 0;
  features = 0;
  padding = [];
}

abbrev refused : AuthResponse
refused = record {
  status = 1;
  error_code = 1;
  message = text "no";
  server_cc_rx = 0;
  server_features = 0;
  padding = [];
}

nobody-Fits : Fits nobody
nobody-Fits = record {
  version = omega arith;
  nonce = omega arith;
  proof = omega arith;
  rate = omega arith;
  padding = omega arith;
}

abbrev host : Address
host = Address.domain (text "a.b") 443

abbrev unreachable : OpenStreamAck
unreachable = record { status = 1; error_code = 3; message = text "no" }

-- A wrong password, followed by more bytes.
abbrev login : List ℕ
login = 1 ∷ (1 ∷ (117 ∷ (1 ∷ (112 ∷ (9 ∷ [])))))

abbrev pin : List ℕ
pin = repeat 32 0xab

-- Eight chunks were sent and read, and their credit came in before the last one was counted.
abbrev link : Link
link = record {
  credit = record { outstanding = chunk_len };
  uncounted = 0;
  unread = 0;
  reader = record { id = 4; pending = 0 };
  grants = [];
}

chunk-Flows :
    {l : Link}
    → Flows 4 l
    → l.uncounted ≡ 0
    → window_open l.credit ≡ true
    → Flows 4 (record l {
      credit = sent l.credit chunk_len;
      uncounted = 0;
      unread = l.unread + chunk_len;
    })
chunk-Flows flows counted room = count (send chunk_len flows counted room (omega arith))

seven-Flows : Flows 4 (record {
  credit = record { outstanding = 7 * chunk_len };
  uncounted = 0;
  unread = 7 * chunk_len;
  reader = record { id = 4; pending = 0 };
  grants = [];
})
unfolding sent window_open
seven-Flows =
    chunk-Flows
      (chunk-Flows
        (chunk-Flows
          (chunk-Flows (chunk-Flows (chunk-Flows (chunk-Flows start refl refl) refl refl) refl refl)
            refl refl)
          refl refl)
        refl refl)
      refl refl

link-Flows : Flows 4 link
unfolding sent grant poll_read window_open
link-Flows = count (
    receive_credit (8 * chunk_len) []
      (read (8 * chunk_len) true (send chunk_len seven-Flows refl refl (omega arith)) (omega arith))
      refl)

outstanding_lem_example :
    (owed link ≤ link.credit.outstanding + link.uncounted)
    × (link.credit.outstanding + link.uncounted ≤ owed link + chunk_len)
    × (link.credit.outstanding + link.uncounted < recv_window + chunk_len)
outstanding_lem_example = outstanding_lem 4 link-Flows
