-- ===== src/Server/Rate.antt =====
-- `rate_allow` of crates/hydr-server/src/lib.rs against the log of everything it allowed: it forgets
-- old attempts, and the answers are those of a limiter that never forgets.
use hydr.Base.{
  ℕ, ◌-◌, ◌≤◌, ◌<◌, ◌≡◌, refl, sym, ap, ◌∙◌, ◌⊎◌, arith, List, [], ◌∷◌, ◌++◌, true, false,
}
use hydr.Base.{length, length-append, ltb, leb, if◌then◌else◌, ◌&&◌, not, Bool-cases, inl, inr}
use hydr.Base.{le→ltb}
use hydr.Base.Sets.{Eq, beq-eq, beq_comm}
use hydr.Metrics.{Metrics}
use hydr.Server.{
  Config, Server, new, recent, attempt, attempt_at, rate_allow, auth_window, auth_max_per_ip,
}

recent-append : (now : ℕ) (xs ys : List ℕ) → recent now (xs ++ ys) ≡ recent now xs ++ recent now ys
unfolding recent
recent-append now [] ys = refl
recent-append now (x ∷ xs) ys = elim (Bool-cases (ltb (now - x) auth_window)) [
  | inl young ↦ rw young (ap (◌∷◌ x) (recent-append now xs ys))
  | inr old ↦ rw old (recent-append now xs ys)
]

-- What a later call drops contains what an earlier one dropped.
recent-recent : (now m : ℕ) (xs : List ℕ) → now ≤ m → recent m (recent now xs) ≡ recent m xs
unfolding recent
recent-recent now m [] h = refl
recent-recent now m (x ∷ xs) h = elim (Bool-cases (ltb (now - x) auth_window)) [
  | inl young ↦
      rw young
        (ap (λ rest. if ltb (m - x) auth_window then x ∷ rest else rest) (recent-recent now m xs h))
  | inr old ↦
      let older : ltb (m - x) auth_window ≡ false = le→ltb _ _ (ground (arith, old, h)) in
      rw (old, older) (recent-recent now m xs h)
]

length-recent : (now : ℕ) (xs : List ℕ) → length (recent now xs) ≤ length xs
unfolding recent
length-recent now [] = omega arith
length-recent now (x ∷ xs) = elim (Bool-cases (ltb (now - x) auth_window)) [
  | inl young ↦ rw young (omega (arith, length-recent now xs))
  | inr old ↦ rw old (omega (arith, length-recent now xs))
]

module _ ⦃e : Eq (List ℕ)⦄ where
  -- The attempts that the table holds for an address.
  unfoldable pub attempts_of : List ℕ → List (List ℕ × List ℕ) → List ℕ
  attempts_of ip [] = []
  attempts_of ip ((k, ts) ∷ rest) = let ts' = attempts_of ip rest in if e.beq k ip then ts else ts'

  -- A call answers from the entry of its own address and changes no other one.
  pub attempt_at-attempts_of :
      (now : ℕ) (ip other : List ℕ) (table : List (List ℕ × List ℕ))
      → ((attempt_at now ip table).1 ≡ (attempt now (attempts_of ip table)).1)
        × (attempts_of other (attempt_at now ip table).0 ≡ (
            if e.beq ip other
            then (attempt now (attempts_of ip table)).0
            else attempts_of other table))
  unfolding attempt_at attempts_of
  attempt_at-attempts_of now ip other [] = (refl, refl)
  attempt_at-attempts_of now ip other ((k, ts) ∷ rest) =
      let (answer, state) = attempt_at-attempts_of now ip other rest in
      elim (Bool-cases (e.beq k ip)) [
        | inl hit ↦ rw (hit, beq-eq k ip other hit) (refl, ground arith)
        | inr miss ↦ elim (Bool-cases (e.beq k other)) [
          | inl found ↦
              let apart : e.beq ip other ≡ false =
                beq_comm ip other ∙ sym (beq-eq k other ip found) ∙ miss in
              rw (miss, found, apart) (answer, refl)
          | inr lost ↦ rw (miss, lost) (answer, state)
        ]
      ]

  -- The server after some calls, and the instants at which `ip` was allowed, oldest first.
  unfoldable pub rate_all : Server → List ℕ → List ℕ → List (ℕ × List ℕ) → Server × List ℕ
  rate_all s ip allowed [] = (s, allowed)
  rate_all s ip allowed ((now, who) ∷ calls) =
      let (s', answer) = rate_allow s now who in
      rate_all s' ip (if e.beq who ip && answer then allowed ++ (now ∷ []) else allowed) calls

  -- The calls come in the order of their instants, from `start` on and up to `end`.
  abbrev pub InOrder : ℕ → List (ℕ × List ℕ) → ℕ → Type 0
  InOrder start [] end = start ≤ end
  InOrder start ((now, who) ∷ calls) end = (start ≤ now) × InOrder now calls end

  -- What the table holds for `ip` and what was allowed agree on every minute that ends later.
  abbrev Tracks : List ℕ → ℕ → List (List ℕ × List ℕ) → List ℕ → Type 0
  Tracks ip last table allowed =
      ((m : ℕ) → last ≤ m → recent m (attempts_of ip table) ≡ recent m allowed)
      × (length (attempts_of ip table) ≤ auth_max_per_ip)

attempt-cases :
    (now : ℕ) (ts : List ℕ)
    → ((length (recent now ts) < auth_max_per_ip)
        × (attempt now ts ≡ (recent now ts ++ (now ∷ []), true)))
      ⊎ ((auth_max_per_ip ≤ length (recent now ts)) × (attempt now ts ≡ (recent now ts, false)))
unfolding attempt
attempt-cases now ts = elim (Bool-cases (leb auth_max_per_ip (length (recent now ts)))) [
  | inl full ↦ inr (ground (arith, full), rw full refl)
  | inr room ↦ inl (ground (arith, room), rw room refl)
]

module _ ⦃e : Eq (List ℕ)⦄ where
  rate_allow-Tracks :
      (s : Server) (ip who : List ℕ) (allowed : List ℕ) (last now : ℕ)
      → last ≤ now
      → Tracks ip last s.auth_attempts allowed
      → let (s', answer) = rate_allow s now who in
        Tracks ip now s'.auth_attempts
          (if e.beq who ip && answer then allowed ++ (now ∷ []) else allowed)
  unfolding rate_allow
  rate_allow-Tracks s ip who allowed last now order (same, bound) =
      let (answer, state) = attempt_at-attempts_of now who ip s.auth_attempts in
      elim (Bool-cases (e.beq who ip)) [
        | inr apart ↦ rw (state, apart) ((λ m later. same m (omega arith)), bound)
        | inl hit ↦
            let p : who ≡ ip = (e.beq_iff who ip).0 hit in
            elim (attempt-cases now (attempts_of ip s.auth_attempts)) [
              | inl (room, a) ↦
                  rw (state, answer, hit, p, a)
                    (
                      (λ m later.
                          recent-append m (recent now (attempts_of ip s.auth_attempts)) (now ∷ [])
                          ∙ ap (λ xs. xs ++ recent m (now ∷ []))
                              (recent-recent now m _ later ∙ same m (omega arith))
                          ∙ sym (recent-append m allowed (now ∷ []))),
                      omega (
                        arith,
                        room,
                        length-append (recent now (attempts_of ip s.auth_attempts)) (now ∷ []),
                      ),
                    )
              | inr (full, a) ↦
                  rw (state, answer, hit, p, a)
                    (
                      (λ m later. recent-recent now m _ later ∙ same m (omega arith)),
                      omega (arith, bound, length-recent now (attempts_of ip s.auth_attempts)),
                    )
            ]
      ]

  rate_all-Tracks :
      (calls : List (ℕ × List ℕ)) (s : Server) (ip allowed : List ℕ) (last end : ℕ)
      → InOrder last calls end
      → Tracks ip last s.auth_attempts allowed
      → let (s', allowed') = rate_all s ip allowed calls in Tracks ip end s'.auth_attempts allowed'
  unfolding rate_all
  rate_all-Tracks [] s ip allowed last end order (same, bound) =
      ((λ m later. same m (omega arith)), bound)
  rate_all-Tracks ((now, who) ∷ calls) s ip allowed last end order t =
      rate_all-Tracks calls (rate_allow s now who).0 ip _ now end order.1
        (rate_allow-Tracks s ip who allowed last now order.0 t)

  -- After any calls from any addresses, in the order of their instants, a call is allowed exactly if
  -- fewer than thirty calls of its address were allowed in the minute before it, whatever the others did.
  pub rate_allow-window :
      (config : Config) (metrics : Metrics) (ip : List ℕ) (calls : List (ℕ × List ℕ)) (now : ℕ)
      → InOrder 0 calls now
      → let (s, allowed) = rate_all (new config metrics) ip [] calls in
        (rate_allow s now ip).1 ≡ not (leb auth_max_per_ip (length (recent now allowed)))
  unfolding rate_allow attempts_of new
  rate_allow-window config metrics ip calls now order =
      let (s, allowed) = rate_all (new config metrics) ip [] calls in
      let (same, bound) =
        rate_all-Tracks calls (new config metrics) ip [] 0 now order
          ((λ m later. refl), omega arith) in
      let (answer, state) = attempt_at-attempts_of now ip ip s.auth_attempts in
      answer ∙ rw (← same now (omega arith)) (unfold attempt in ground arith)

  -- No more than thirty calls of an address are allowed in any minute that ends after the last call.
  pub rate_all-bound :
      (config : Config) (metrics : Metrics) (ip : List ℕ) (calls : List (ℕ × List ℕ)) (now : ℕ)
      → InOrder 0 calls now
      → length (recent now (rate_all (new config metrics) ip [] calls).1) ≤ auth_max_per_ip
  unfolding attempts_of new
  rate_all-bound config metrics ip calls now order =
      let (s, allowed) = rate_all (new config metrics) ip [] calls in
      let (same, bound) =
        rate_all-Tracks calls (new config metrics) ip [] 0 now order
          ((λ m later. refl), omega arith) in
      omega (
        arith,
        bound,
        length-recent now (attempts_of ip s.auth_attempts),
        ap length (same now (omega arith)),
      )
