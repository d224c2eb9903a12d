-- ===== src/Nonce/Valid.antt =====
-- The set and the queue of the cache hold the same nonces, each once, and no more than the capacity.
use hydr.Base.{ℕ, suc, ◌-◌, ◌≤◌, ◌≡◌, refl, sym, ap, ◌∙◌, arith, List, [], ◌∷◌, ◌++◌, false}
use hydr.Base.{length, ltb, Bool-cases, inl, inr, not}
use hydr.Base.Sets.{
  contains, remove, Distinct, bytes_eq, nat_eq, contains-remove, contains-snoc, Distinct-snoc,
}
use hydr.Nonce.{Entry, NonceCache, new, evict_from, evict_expired, shrink, insert, keys, replay_ttl}

-- The set and the queue hold the same nonces, each once in the queue.
pub record Agrees (set : List (List ℕ)) (order : List Entry) : Type 0 where
  pub same : (x : List ℕ) → contains x set ≡ contains x (keys order)
  pub distinct : Distinct (keys order)

pop-Agrees :
    (set : List (List ℕ)) (old : List ℕ) (t : ℕ) (order : List Entry)
    → Agrees set ((old, t) ∷ order)
    → Agrees (remove old set) order
pop-Agrees set old t order a = record {
  same = λ x. contains-remove old x set ∙ elim (Bool-cases (bytes_eq.beq old x)) [
    | inl hit ↦ let p : old ≡ x = (bytes_eq.beq_iff old x).0 hit in rw (hit, ← p) (sym a.distinct.0)
    | inr miss ↦ rw miss (a.same x ∙ rw miss)
  ];
  distinct = a.distinct.1;
}

evict_from-Agrees :
    (now cap : ℕ) (set : List (List ℕ)) (order : List Entry)
    → Agrees set order
    → let c = evict_from now cap set order in
      Agrees c.set c.order × (length c.order ≤ length order) × (c.cap ≡ cap)
unfolding evict_from
evict_from-Agrees now cap set [] a = (a, omega arith, refl)
evict_from-Agrees now cap set ((old, t) ∷ order) a = elim (Bool-cases (ltb (now - t) replay_ttl)) [
  | inl live ↦ rw live (a, omega arith, refl)
  | inr expired ↦
      let (a', shorter, same_cap) =
        evict_from-Agrees now cap (remove old set) order (pop-Agrees set old t order a) in
      rw expired (a', omega arith, same_cap)
]

shrink-Agrees :
    (cap : ℕ) (set : List (List ℕ)) (order : List Entry)
    → Agrees set order
    → let c = shrink cap set order in Agrees c.set c.order × (length c.order ≤ cap) × (c.cap ≡ cap)
unfolding shrink
shrink-Agrees cap set [] a = (a, omega arith, refl)
shrink-Agrees cap set ((old, t) ∷ order) a = elim (Bool-cases (ltb cap (suc (length order)))) [
  | inl over ↦ rw over (shrink-Agrees cap (remove old set) order (pop-Agrees set old t order a))
  | inr fits ↦ rw fits (a, ground arith, refl)
]

keys-snoc : (order : List Entry) (e : Entry) → keys (order ++ (e ∷ [])) ≡ keys order ++ (e.0 ∷ [])
keys-snoc [] e = refl
keys-snoc (x ∷ order) e = ap (◌∷◌ x.0) (keys-snoc order e)

push-Agrees :
    (set : List (List ℕ)) (order : List Entry) (nonce : List ℕ) (now : ℕ)
    → Agrees set order
    → contains nonce set ≡ false
    → Agrees (nonce ∷ set) (order ++ ((nonce, now) ∷ []))
push-Agrees set order nonce now a h = record {
  same = λ x.
      rw (keys-snoc order (nonce, now), contains-snoc x nonce (keys order), a.same x)
        (ground arith);
  distinct =
      rw (keys-snoc order (nonce, now))
        (Distinct-snoc nonce (keys order) a.distinct (sym (a.same nonce) ∙ h));
}

pub record IsValid (c : NonceCache) : Type 0 where
  pub agrees : Agrees c.set c.order
  pub size : length c.order ≤ c.cap

pub new-IsValid : (cap : ℕ) → IsValid (new cap)
unfolding new
new-IsValid cap = record { agrees = record { same = λ x. refl; distinct = tt }; size = omega arith }

pub evict_expired-Agrees :
    (c : NonceCache) (now : ℕ)
    → IsValid c
    → Agrees (evict_expired c now).set (evict_expired c now).order
      × (length (evict_expired c now).order ≤ c.cap)
      × ((evict_expired c now).cap ≡ c.cap)
unfolding evict_expired
evict_expired-Agrees c now v =
    let (a, shorter, same_cap) = evict_from-Agrees now c.cap c.set c.order v.agrees in
    (a, omega (arith, shorter, v.size), same_cap)

-- Every call keeps the set and the queue in step and within the capacity, and the answer is whether
-- the nonce was still remembered after the expired ones were dropped.
pub insert-IsValid :
    (c : NonceCache) (now : ℕ) (nonce : List ℕ)
    → IsValid c
    → IsValid (insert c now nonce).0
      × ((insert c now nonce).0.cap ≡ c.cap)
      × ((insert c now nonce).1 ≡ not (contains nonce (keys (evict_expired c now).order)))
unfolding insert
insert-IsValid c now nonce v =
    let c1 = evict_expired c now in
    let (a, bound, same_cap) = evict_expired-Agrees c now v in
    let known : contains nonce (keys c1.order) ≡ contains nonce c1.set = sym (a.same nonce) in
    elim (Bool-cases (contains nonce c1.set)) [
      | inl seen ↦
          rw (seen, known, seen, insert)
            (record { agrees = a; size = omega (arith, bound, same_cap) }, same_cap, refl)
      | inr fresh ↦
          let (a', fits, kept) =
            shrink-Agrees c1.cap (nonce ∷ c1.set) (c1.order ++ ((nonce, now) ∷ []))
              (push-Agrees c1.set c1.order nonce now a fresh) in
          rw (fresh, known, fresh, insert)
            (record { agrees = a'; size = omega (arith, fits, kept) }, kept ∙ same_cap, refl)
    ]
