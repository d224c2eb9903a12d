-- ===== src/Server/Auth.antt =====
-- `validate` of crates/hydr-server/src/lib.rs: when a request is accepted, what a refused one changes,
-- and that an accepted one cannot be replayed.
use hydr.Base.{
  ℕ, ◌-◌, ◌≤◌, ◌<◌, ◌≡◌, refl, sym, ap, ◌∙◌, ◌↔◌, ◌⊎◌, arith, List, [], ◌∷◌, true, false,
}
use hydr.Base.{length, ltb, Bool-cases, inl, inr, ◌==◌, ==_iff, All, le→ltb}
use hydr.Base.Blake3.{Blake3}
use hydr.Base.Sets.{contains, bytes_eq, nat_eq}
use hydr.Message.{AuthRequest, response_ok, response_error_with_code, status_ok, protocol_version}
use hydr.Message.Proof.{compute_auth_proof, ct_eq, ct_eq_iff}
use hydr.Nonce.{insert, evict_expired, keys, replay_ttl}
use hydr.Nonce.Valid.{IsValid, insert-IsValid}
use hydr.Nonce.Keeps.{insert_all, AllLive, replay-refused}
use hydr.Server.{Server, nonce_seen, check_nonce, validate}

module _ (b3 : Blake3) where
  -- What the specification asks of a request before its nonce is looked up.
  abbrev pub Knows : Server → AuthRequest → Type 0
  Knows s req =
      (req.version ≡ protocol_version)
      × (8 ≤ length req.client_nonce)
      × (compute_auth_proof b3 s.config.password req.client_nonce ≡ req.auth_proof)

  -- A request that meets the conditions reaches the nonce cache, and every other one is refused with
  -- the cache as it was.
  pub validate-cases :
      (s : Server) (now : ℕ) (req : AuthRequest)
      → (Knows s req × (validate b3 s now req ≡ check_nonce b3 s now req))
        ⊎ (¬ Knows s req
            × ((validate b3 s now req).0.status ≡ 1)
            × ((validate b3 s now req).1.replay_nonces ≡ s.replay_nonces)
            × ((validate b3 s now req).1.config ≡ s.config))
  unfolding validate response_error_with_code
  validate-cases s now req =
      let expected = compute_auth_proof b3 s.config.password req.client_nonce in
      elim (Bool-cases (req.version == protocol_version)) [
        | inr other ↦ rw other (
            inr (
              (λ k. let hit : (req.version == protocol_version) ≡ true = (==_iff _ _).1 k.0 in cc),
              refl,
              refl,
              refl,
            ))
        | inl same ↦ elim (Bool-cases (ltb (length req.client_nonce) 8)) [
          | inl short ↦
              rw (same, short) (inr ((λ k. let room = le→ltb _ _ k.1 in cc), refl, refl, refl))
          | inr room ↦ elim (Bool-cases (ct_eq expected req.auth_proof)) [
            | inl right ↦
                rw (same, room, right)
                  (inl (((==_iff _ _).0 same, ground (arith, room), (ct_eq_iff _ _).0 right), refl))
            | inr wrong ↦
                rw (same, room, wrong)
                  (inr ((λ k. let hit = (ct_eq_iff _ _).1 k.2 in cc), refl, refl, refl))
          ]
        ]
      ]

  pub check_nonce-state :
      (s : Server) (now : ℕ) (req : AuthRequest)
      → ((check_nonce b3 s now req).1.replay_nonces
          ≡ (insert s.replay_nonces now req.client_nonce).0)
        × ((check_nonce b3 s now req).1.config ≡ s.config)
        × (((check_nonce b3 s now req).0.status ≡ status_ok)
            ↔ ((insert s.replay_nonces now req.client_nonce).1 ≡ true))
  unfolding check_nonce nonce_seen response_ok response_error_with_code
  check_nonce-state s now req = elim (Bool-cases (insert s.replay_nonces now req.client_nonce).1) [
    | inl fresh ↦ rw fresh (refl, refl, ((λ h. refl), λ h. refl))
    | inr seen ↦ rw seen (refl, refl, ((λ h. absurd (omega arith)), λ h. absurd (cc)))
  ]

  -- With a consistent nonce cache, a request is accepted exactly if its version is the protocol's, its nonce has at least eight bytes,
  -- its proof is that of the password and the nonce, and the cache does not remember the nonce.
  pub validate_iff :
      (s : Server) (now : ℕ) (req : AuthRequest)
      → IsValid s.replay_nonces
      → ((validate b3 s now req).0.status ≡ status_ok) ↔ (
          Knows s req
          × (contains req.client_nonce (keys (evict_expired s.replay_nonces now).order) ≡ false))
  validate_iff s now req v =
      let (ok_state, ok_config, accepted) = check_nonce-state s now req in
      let fresh = (insert-IsValid s.replay_nonces now req.client_nonce v).2 in
      elim (validate-cases s now req) [
        | inl (k, e) ↦ rw e (
          (λ h. (k, let hit = accepted.0 h in ground (arith, hit, fresh))),
          λ (k', miss). accepted.1 (fresh ∙ rw miss refl),
        )
        | inr (unknown, refused, same, kept) ↦
            ((λ h. absurd (omega (arith, h, refused))), λ (k', miss). absurd (unknown k'))
      ]

  -- Requests at given times, one after the other.
  unfoldable pub validate_all : Server → List (ℕ × AuthRequest) → Server
  validate_all s [] = s
  validate_all s ((now, req) ∷ reqs) = validate_all (validate b3 s now req).1 reqs

  abbrev pub Soon : ℕ → List (ℕ × AuthRequest) → Type 0
  Soon t = All (λ r. r.0 - t < replay_ttl)

  -- The cache after some requests is the cache after some insertions, no more than the requests.
  validate_all-insert_all :
      (reqs : List (ℕ × AuthRequest)) (s : Server) (t : ℕ)
      → Soon t reqs
      → (calls : List (ℕ × List ℕ)) × ((validate_all s reqs).replay_nonces
          ≡ insert_all s.replay_nonces calls)
        × AllLive t calls
        × (length calls ≤ length reqs)
  unfolding validate_all insert_all
  validate_all-insert_all [] s t live = ([], refl, tt, omega arith)
  validate_all-insert_all ((now, req) ∷ reqs) s t live =
      let (calls, e, soon, few) = validate_all-insert_all reqs (validate b3 s now req).1 t live.1 in
      elim (validate-cases s now req) [
        | inl (k, p) ↦
            let q : (validate b3 s now req).1.replay_nonces
                ≡ (insert s.replay_nonces now req.client_nonce).0 =
              ap (λ r. r.1.replay_nonces) p ∙ (check_nonce-state s now req).0 in
            (
              (now, req.client_nonce) ∷ calls,
              e ∙ ap (λ c. insert_all c calls) q,
              (live.0, soon),
              omega arith,
            )
        | inr (unknown, refused, same, kept) ↦
            (calls, e ∙ ap (λ c. insert_all c calls) same, soon, omega arith)
      ]

  -- An accepted request was entered in the cache.
  validate_accepted :
      (s : Server) (t : ℕ) (req : AuthRequest)
      → (validate b3 s t req).0.status ≡ status_ok
      → ((insert s.replay_nonces t req.client_nonce).1 ≡ true)
        × ((validate b3 s t req).1.replay_nonces ≡ (insert s.replay_nonces t req.client_nonce).0)
  validate_accepted s t req h = elim (validate-cases s t req) [
    | inl (k, e) ↦
        let (state, _, accepted) = check_nonce-state s t req in
        (accepted.0 (sym (ap (λ r. r.0.status) e) ∙ h), ap (λ r. r.1.replay_nonces) e ∙ state)
    | inr (unknown, refused, same, kept) ↦ absurd (omega (arith, h, refused))
  ]

  -- On a server with a consistent nonce cache, after a request was accepted, any request with the same
  -- nonce is refused within the nonce's time to live, if fewer requests than the capacity of the cache
  -- came in between, all of them within that time and whatever they were.
  pub validate-replay :
      (s : Server) (t now : ℕ) (req req' : AuthRequest) (reqs : List (ℕ × AuthRequest))
      → IsValid s.replay_nonces
      → (validate b3 s t req).0.status ≡ status_ok
      → Soon t reqs
      → length reqs < s.replay_nonces.cap
      → now - t < replay_ttl
      → req'.client_nonce ≡ req.client_nonce
      → ¬ ((validate b3 (validate_all (validate b3 s t req).1 reqs) now req').0.status ≡ status_ok)
  validate-replay s t now req req' reqs v accepted live room soon same hit =
      let (entered, state) = validate_accepted s t req accepted in
      let (calls, e, calls_live, few) =
        validate_all-insert_all reqs (validate b3 s t req).1 t live in
      let refused =
        replay-refused s.replay_nonces t now req.client_nonce calls v entered calls_live
          (omega arith) soon in
      let (again, _) = validate_accepted (validate_all (validate b3 s t req).1 reqs) now req' hit in
      let at : (insert (insert_all (insert s.replay_nonces t req.client_nonce).0 calls) now
            req.client_nonce).1
          ≡ true =
        rw (e, state, same) at again in
      cc
