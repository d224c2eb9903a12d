-- ===== src/Client/Handles.antt =====
-- crates/hydr-client/src/lib.rs: which tunnel the handle of the client belongs to, when tasks come in between the
-- steps of a reconnection.
use hydr.Base.{ℕ, ◌≡◌, refl, List, [], ◌∷◌, Option, none, some, ◌==◌}
use hydr.Base.{if-All}
use hydr.Base.Blake3.{Blake3}
use hydr.Base.Results.{Result, ok, err, panic}
use hydr.Message.{Datagram}
use hydr.Tunnel.{Transports}
use hydr.Tunnel
use hydr.Client.{State, connect_tunnel}
use hydr.Client.Turns.{
  Task, opener, server, Phase, outside, connecting, connected, replaced, published, Race, phase_of,
  started, after_connect, advance, enter, received, receive, Turn, opens, enters, receives,
  advances, turn, run,
}

module _ (b3 : Blake3) (T : Transports) where
  open T use {World}

  -- The handle that a task has still to write.
  abbrev pub unwritten : Phase b3 T → Option (Tunnel.TunnelHandle T)
  unwritten outside = none
  unwritten connecting = none
  unwritten (connected t) = none
  unwritten (replaced h) = some h
  unwritten published = none

  abbrev of_task : {A : Type 0} → Task → A → A → A
  of_task opener a b = a
  of_task server a b = b

  -- With what the writer of the tunnel has still to write, and whether it is the writer of the handle.
  abbrev Settled :
      Option (Tunnel.TunnelHandle T) → Type 0 → Tunnel.Tunnel T → Tunnel.TunnelHandle T → Type 0
  Settled (some h') same t h = h' ≡ Tunnel.from_tunnel T t
  Settled none same t h = same → h ≡ Tunnel.from_tunnel T t

  abbrev SettledBy :
      (j i : Task) (a b : Option (Tunnel.TunnelHandle T)) (t : Tunnel.Tunnel T)
      (h : Tunnel.TunnelHandle T)
      → Type 0
  SettledBy j i a b t h = Settled (of_task j a b) (i ≡ j) t h

  abbrev Agrees : Race b3 T → Type 0
  Agrees s =
      SettledBy s.tunnel_by s.handle_by (unwritten s.opening) (unwritten s.serving) s.state.0.tunnel
        s.state.0.handle

  -- Another task has written the handle.
  Settled-other :
      (A B : Type 0) (o : Option (Tunnel.TunnelHandle T)) (g h : Tunnel.TunnelHandle T)
      (t : Tunnel.Tunnel T)
      → (B → ⊥)
      → Settled o A t h
      → Settled o B t g
  Settled-other A B (some h') g h t apart fits = fits
  Settled-other A B none g h t apart fits = λ same. absurd (apart same)

  opener-writes :
      (j i : Task) (b : Option (Tunnel.TunnelHandle T)) (g h : Tunnel.TunnelHandle T)
      (t : Tunnel.Tunnel T)
      → SettledBy j i (some g) b t h
      → SettledBy j opener none b t g
  opener-writes opener i b g h t fits = λ same. fits
  opener-writes server i b g h t fits = Settled-other _ _ b g h t (λ same. cc) fits

  server-writes :
      (j i : Task) (a : Option (Tunnel.TunnelHandle T)) (g h : Tunnel.TunnelHandle T)
      (t : Tunnel.Tunnel T)
      → SettledBy j i a (some g) t h
      → SettledBy j server a none t g
  server-writes opener i a g h t fits = Settled-other _ _ a g h t (λ same. cc) fits
  server-writes server i a g h t fits = λ same. fits

  -- A step that writes neither lock leaves what the tasks have still to write.
  after_connect-Agrees :
      (k : Task) (s : Race b3 T) (x : Result (Tunnel.Tunnel T) × World)
      → phase_of b3 T k s ≡ connecting
      → Agrees s
      → Agrees (after_connect b3 T k s x)
  unfolding after_connect
  after_connect-Agrees opener s (ok t, w) e h = rw e at h
  after_connect-Agrees opener s (err er, w) e h = rw e at h
  after_connect-Agrees opener s (panic, w) e h = rw e at h
  after_connect-Agrees server s (ok t, w) e h = rw e at h
  after_connect-Agrees server s (err er, w) e h = rw e at h
  after_connect-Agrees server s (panic, w) e h = rw e at h

  advance-Agrees :
      (nonce : List ℕ) (k : Task) (p : Phase b3 T) (s : Race b3 T)
      → phase_of b3 T k s ≡ p
      → Agrees s
      → Agrees (advance b3 T nonce k p s)
  unfolding advance
  advance-Agrees nonce k outside s e h = h
  advance-Agrees nonce k connecting s e h =
      after_connect-Agrees k s (connect_tunnel b3 T s.state.0.config nonce s.state.1) e h
  advance-Agrees nonce opener (connected t) s e h = refl
  advance-Agrees nonce server (connected t) s e h = refl
  advance-Agrees nonce opener (replaced g) s e h =
      opener-writes s.tunnel_by s.handle_by (unwritten s.serving) g s.state.0.handle
        s.state.0.tunnel (rw e at h)
  advance-Agrees nonce server (replaced g) s e h =
      server-writes s.tunnel_by s.handle_by (unwritten s.opening) g s.state.0.handle
        s.state.0.tunnel (rw e at h)
  advance-Agrees nonce opener published s e h = rw e at h
  advance-Agrees nonce server published s e h = rw e at h

  enter-Agrees :
      (seen : ℕ) (p : Phase b3 T) (s : Race b3 T)
      → s.opening ≡ p
      → Agrees s
      → Agrees (enter b3 T seen p s)
  unfolding enter
  enter-Agrees seen outside s e h =
      if-All Agrees (s.state.0.tunnel_gen == seen) (λ same. rw e at h) h
  enter-Agrees seen connecting s e h = h
  enter-Agrees seen (connected t) s e h = h
  enter-Agrees seen (replaced g) s e h = h
  enter-Agrees seen published s e h = h

  received-Agrees :
      (s : Race b3 T) (x : Result Datagram × World)
      → s.serving ≡ outside
      → Agrees s
      → Agrees (received b3 T s x)
  unfolding received
  received-Agrees s (ok dg, w) e h = h
  received-Agrees s (err er, w) e h = rw e at h
  received-Agrees s (panic, w) e h = h

  receive-Agrees :
      (p : Phase b3 T) (s : Race b3 T) → s.serving ≡ p → Agrees s → Agrees (receive b3 T p s)
  unfolding receive
  receive-Agrees outside s e h =
      received-Agrees s (Tunnel.recv_datagram T s.state.1 s.state.0.tunnel) e h
  receive-Agrees connecting s e h = h
  receive-Agrees (connected t) s e h = h
  receive-Agrees (replaced g) s e h = h
  receive-Agrees published s e h = h

  turn-Agrees : (s : Race b3 T) (t : Turn b3 T) → Agrees s → Agrees (turn b3 T s t)
  unfolding turn
  turn-Agrees s (opens g addr) h = h
  turn-Agrees s (enters seen) h = enter-Agrees seen s.opening s refl h
  turn-Agrees s receives h = receive-Agrees s.serving s refl h
  turn-Agrees s (advances k nonce) h = advance-Agrees nonce k (phase_of b3 T k s) s refl h

  run-Agrees : (ts : List (Turn b3 T)) (s : Race b3 T) → Agrees s → Agrees (run b3 T s ts)
  unfolding run
  run-Agrees [] s h = h
  run-Agrees (t ∷ ts) s h = run-Agrees ts (turn b3 T s t) (turn-Agrees s t h)

  -- The handle that streams are opened with is that of the tunnel that datagrams are received from.
  abbrev pub IsConsistent : State b3 T → Type 0
  IsConsistent st = st.0.handle ≡ Tunnel.from_tunnel T st.0.tunnel

  -- The task that wrote the tunnel last has also written its handle, and no other task has written one since.
  abbrev pub IsWritten : Race b3 T → Type 0
  IsWritten s = (unwritten (phase_of b3 T s.tunnel_by s) ≡ none) × (s.handle_by ≡ s.tunnel_by)

  settled :
      (j : Task) (s : Race b3 T)
      → s.tunnel_by ≡ j
      → unwritten (phase_of b3 T j s) ≡ none
      → s.handle_by ≡ j
      → Agrees s
      → IsConsistent s.state
  settled opener s e done same h = (rw (e, done) at h) same
  settled server s e done same h = (rw (e, done) at h) same

  -- From the first connection of a client on, and however its tasks come in between the steps of the reconnections of
  -- others, the handle that streams are opened with is that of the tunnel that datagrams are received from, as long as
  -- the task that wrote the tunnel last has also written its handle, and no other task has written one since.
  pub run-IsConsistent :
      (ts : List (Turn b3 T)) (st : State b3 T)
      → IsConsistent st
      → IsWritten (run b3 T (started b3 T st) ts)
      → IsConsistent (run b3 T (started b3 T st) ts).state
  run-IsConsistent ts st first (done, same) =
      let s = run b3 T (started b3 T st) ts in
      settled s.tunnel_by s refl done same (run-Agrees ts (started b3 T st) (λ kept. first))
