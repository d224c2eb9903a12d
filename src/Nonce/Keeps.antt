-- ===== src/Nonce/Keeps.antt =====
-- How long the cache remembers a nonce: through its time to live, and through fewer insertions than
-- the capacity.
use hydr.Base.{ℕ, suc, ◌+◌, ◌-◌, ◌≤◌, ◌<◌, ◌≡◌, refl, ap, ◌∙◌, arith, List, [], ◌∷◌, ◌++◌}
use hydr.Base.{length, length-append, ltb, true, false, Bool-cases, inl, inr}
use hydr.Base.{lt→ltb, le→ltb, append_assoc, All}
use hydr.Base.Sets.{contains, remove, bytes_eq, nat_eq, beq_refl}
use hydr.Nonce.{Entry, NonceCache, evict_from, evict_expired, shrink, insert, keys, replay_ttl}
use hydr.Nonce.Valid.{IsValid, insert-IsValid, evict_expired-Agrees}

-- The entry stands in the queue with at most `k` entries behind it.
abbrev Keeps : List ℕ → ℕ → ℕ → List Entry → Type 0
Keeps n t k order =
    (front : List Entry) × (back : List Entry) × (order ≡ front ++ ((n, t) ∷ back))
    × (length back ≤ k)

contains-Keeps :
    (n : List ℕ) (front back : List Entry) (t : ℕ)
    → contains n (keys (front ++ ((n, t) ∷ back))) ≡ true
contains-Keeps n [] back t = rw (beq_refl n)
contains-Keeps n (x ∷ front) back t = ground (arith, contains-Keeps n front back t)

-- Dropping expired entries stops at an entry that is still live.
evict_from-Keeps :
    (now cap : ℕ) (n : List ℕ) (t k : ℕ) (set : List (List ℕ)) (front back : List Entry)
    → now - t < replay_ttl
    → length back ≤ k
    → Keeps n t k (evict_from now cap set (front ++ ((n, t) ∷ back))).order
unfolding evict_from
evict_from-Keeps now cap n t k set [] back h b =
    rw (lt→ltb (now - t) replay_ttl h) ([], back, refl, b)
evict_from-Keeps now cap n t k set ((old, s) ∷ front) back h b =
    elim (Bool-cases (ltb (now - s) replay_ttl)) [
      | inl live ↦ rw live ((old, s) ∷ front, back, refl, b)
      | inr expired ↦ rw expired (evict_from-Keeps now cap n t k (remove old set) front back h b)
    ]

-- Making room stops at an entry that the capacity has room for.
shrink-Keeps :
    (cap : ℕ) (n : List ℕ) (t k : ℕ) (set : List (List ℕ)) (front back : List Entry)
    → length back ≤ k
    → k < cap
    → Keeps n t k (shrink cap set (front ++ ((n, t) ∷ back))).order
unfolding shrink
shrink-Keeps cap n t k set [] back b h =
    rw (le→ltb cap (suc (length back)) (omega arith)) ([], back, refl, b)
shrink-Keeps cap n t k set ((old, s) ∷ front) back b h =
    elim (Bool-cases (ltb cap (suc (length (front ++ ((n, t) ∷ back)))))) [
      | inr fits ↦ rw fits ((old, s) ∷ front, back, refl, b)
      | inl over ↦ rw over (shrink-Keeps cap n t k (remove old set) front back b h)
    ]

-- Another call may put one more entry behind it.
insert-Keeps :
    (c : NonceCache) (now : ℕ) (nonce n : List ℕ) (t k : ℕ)
    → IsValid c
    → now - t < replay_ttl
    → suc k < c.cap
    → Keeps n t k c.order
    → Keeps n t (suc k) (insert c now nonce).0.order
unfolding insert
insert-Keeps c now nonce n t k v live room (front, back, e, b) =
    let c1 = evict_expired c now in
    let (front1, back1, e1, b1) : Keeps n t k c1.order =
      unfold evict_expired in rw e (evict_from-Keeps now c.cap n t k c.set front back live b) in
    let same_cap = (evict_expired-Agrees c now v).2 in
    elim (Bool-cases (contains nonce c1.set)) [
      | inl seen ↦ rw (seen, insert) (front1, back1, e1, omega arith)
      | inr fresh ↦
          let moved : c1.order ++ ((nonce, now) ∷ [])
              ≡ front1 ++ ((n, t) ∷ (back1 ++ ((nonce, now) ∷ []))) =
            ap (λ o. o ++ ((nonce, now) ∷ [])) e1 ∙ append_assoc front1 ((n, t) ∷ back1) _ in
          rw (fresh, insert, moved)
            (shrink-Keeps c1.cap n t (suc k) _ front1 (back1 ++ ((nonce, now) ∷ []))
              (omega (arith, length-append back1 ((nonce, now) ∷ []))) (omega (arith, same_cap)))
    ]

insert_new-Keeps :
    (c : NonceCache) (t : ℕ) (n : List ℕ)
    → IsValid c
    → 0 < c.cap
    → (insert c t n).1 ≡ true
    → Keeps n t 0 (insert c t n).0.order
unfolding insert
insert_new-Keeps c t n v room h =
    let c1 = evict_expired c t in
    elim (Bool-cases (contains n c1.set)) [
      | inl seen ↦ let no_way : false ≡ true = rw (seen, insert) at h in absurd (cc)
      | inr fresh ↦
          rw (fresh, insert)
            (shrink-Keeps c1.cap n t 0 (n ∷ c1.set) c1.order [] (omega arith)
              (omega (arith, (evict_expired-Agrees c t v).2)))
    ]

-- A live entry of the queue is found.
insert-Keeps_refused :
    (c : NonceCache) (now : ℕ) (n : List ℕ) (t k : ℕ)
    → IsValid c
    → now - t < replay_ttl
    → Keeps n t k c.order
    → (insert c now n).1 ≡ false
insert-Keeps_refused c now n t k v live (front, back, e, b) =
    let (front1, back1, e1, b1) : Keeps n t k (evict_expired c now).order =
      unfold evict_expired in rw e (evict_from-Keeps now c.cap n t k c.set front back live b) in
    (insert-IsValid c now n v).2 ∙ rw (e1, contains-Keeps n front1 back1 t)

-- Calls at given times.
unfoldable pub insert_all : NonceCache → List (ℕ × List ℕ) → NonceCache
insert_all c [] = c
insert_all c ((now, nonce) ∷ calls) = insert_all (insert c now nonce).0 calls

pub insert_all-IsValid :
    (calls : List (ℕ × List ℕ)) (c : NonceCache)
    → IsValid c
    → IsValid (insert_all c calls) × ((insert_all c calls).cap ≡ c.cap)
unfolding insert_all
insert_all-IsValid [] c v = (v, refl)
insert_all-IsValid ((now, nonce) ∷ calls) c v =
    let (v', same_cap, _) = insert-IsValid c now nonce v in
    let (w, kept) = insert_all-IsValid calls (insert c now nonce).0 v' in (w, kept ∙ same_cap)

abbrev pub AllLive : ℕ → List (ℕ × List ℕ) → Type 0
AllLive t = All (λ call. call.0 - t < replay_ttl)

insert_all-Keeps :
    (calls : List (ℕ × List ℕ)) (c : NonceCache) (n : List ℕ) (t k : ℕ)
    → IsValid c
    → AllLive t calls
    → k + length calls < c.cap
    → Keeps n t k c.order
    → Keeps n t (k + length calls) (insert_all c calls).order
unfolding insert_all
insert_all-Keeps [] c n t k v live room (front, back, e, b) = (front, back, e, omega arith)
insert_all-Keeps ((now, nonce) ∷ calls) c n t k v live room kept =
    let (v', same_cap, _) = insert-IsValid c now nonce v in
    let total : suc k + length calls ≡ k + suc (length calls) = omega arith in
    let kept' = insert-Keeps c now nonce n t k v live.0 (omega arith) kept in
    rw (← total) (
      insert_all-Keeps calls (insert c now nonce).0 n t (suc k) v' live.1 (omega (arith, same_cap))
        kept')

-- A nonce that was accepted at time `t` is refused at any later time within its time to live, if fewer
-- calls than the capacity came in between: no flood smaller than the cache opens a replay.
pub replay-refused :
    (c : NonceCache) (t now : ℕ) (n : List ℕ) (calls : List (ℕ × List ℕ))
    → IsValid c
    → (insert c t n).1 ≡ true
    → AllLive t calls
    → length calls < c.cap
    → now - t < replay_ttl
    → (insert (insert_all (insert c t n).0 calls) now n).1 ≡ false
replay-refused c t now n calls v accepted live room soon =
    let (v', same_cap, _) = insert-IsValid c t n v in
    let kept =
      insert_all-Keeps calls (insert c t n).0 n t 0 v' live (omega (arith, same_cap))
        (insert_new-Keeps c t n v (omega arith) accepted) in
    insert-Keeps_refused _ now n t _ (insert_all-IsValid calls (insert c t n).0 v').0 soon kept
