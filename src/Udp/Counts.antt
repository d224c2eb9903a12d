-- ===== src/Udp/Counts.antt =====
-- The counter of each address against the number of its sessions.
use hydr.Base.{
  ℕ, suc, ◌+◌, ◌-◌, ◌<◌, ◌≡◌, refl, sym, ap, ◌∙◌, arith, List, [], ◌∷◌, Bool, true, false, some,
  some-injective,
}
use hydr.Base.{length, All, ◌==◌, if◌then◌else◌, Bool-cases, inl, inr}
use hydr.Base.Sets.{bytes_eq, nat_eq, beq-eq, beq_comm}
use hydr.Udp.{
  SessionKey, UdpSession, SessionsMap, Counters, key_eq, find, touch, remove_key, count_of,
  increment_per_ip, remove_ip, set_count, decrement_per_ip,
}

-- The number of sessions of an address.
unfoldable pub sessions_of : List ℕ → SessionsMap → ℕ
sessions_of ip [] = 0
sessions_of ip ((k, s) ∷ rest) =
    let n = sessions_of ip rest in if bytes_eq.beq k.0 ip then suc n else n

-- Each session is owned by the address in its key.
abbrev pub Owned : SessionsMap → Type 0
Owned = All (λ e. e.1.owner ≡ e.0.0)

abbrev pub one_if : Bool → ℕ
one_if b = if b then 1 else 0

pub touch-sessions :
    (now : ℕ) (key : SessionKey) (ss : SessionsMap) (ip : List ℕ)
    → Owned ss
    → (sessions_of ip (touch now key ss) ≡ sessions_of ip ss)
      × (length (touch now key ss) ≡ length ss)
      × Owned (touch now key ss)
unfolding touch sessions_of
touch-sessions now key [] ip o = (refl, refl, tt)
touch-sessions now key ((k, s) ∷ rest) ip o =
    let (same, size, owned) = touch-sessions now key rest ip o.1 in
    elim (Bool-cases (key_eq k key)) [
      | inl hit ↦ rw hit (refl, refl, o)
      | inr miss ↦ rw miss (rw same refl, ap suc size, (o.0, owned))
    ]

pub remove_key-sessions :
    (key : SessionKey) (ss : SessionsMap) (ip : List ℕ) (s : UdpSession)
    → Owned ss
    → find key ss ≡ some s
    → (sessions_of ip ss ≡ one_if (bytes_eq.beq key.0 ip) + sessions_of ip (remove_key key ss))
      × (length ss ≡ suc (length (remove_key key ss)))
      × Owned (remove_key key ss)
      × (s.owner ≡ key.0)
unfolding find remove_key sessions_of
remove_key-sessions key [] ip s o e = absurd (cc)
remove_key-sessions (kip, kid) (((ip', id'), t) ∷ rest) ip s o e =
    elim (Bool-cases (key_eq (ip', id') (kip, kid))) [
      | inl hit ↦
          let same_ip : bytes_eq.beq ip' kip ≡ true = ground (arith, hit) in
          let p : ip' ≡ kip = (bytes_eq.beq_iff ip' kip).0 same_ip in
          let q : t ≡ s = some-injective _ _ (rw hit at e) in
          rw (hit, ← beq-eq ip' kip ip same_ip)
            (ground arith, refl, o.1, ap (λ r. r.owner) (sym q) ∙ o.0 ∙ p)
      | inr miss ↦
          let found : find (kip, kid) rest ≡ some s = rw miss at e in
          let (same, size, owned, owner) = remove_key-sessions (kip, kid) rest ip s o.1 found in
          rw miss (ground (arith, same), ap suc size, (o.0, owned), owner)
    ]

-- A key that equals one of two different ones differs from the other.
other-eq :
    (k who ip : List ℕ)
    → bytes_eq.beq k who ≡ false
    → bytes_eq.beq k ip ≡ true
    → bytes_eq.beq who ip ≡ false
other-eq k who ip miss found = beq_comm who ip ∙ sym (beq-eq k ip who found) ∙ miss

pub increment_per_ip-count_of :
    (per_ip : Counters) (who ip : List ℕ)
    → count_of ip (increment_per_ip per_ip who) ≡ one_if (bytes_eq.beq who ip) + count_of ip per_ip
unfolding count_of increment_per_ip
increment_per_ip-count_of [] who ip = ground arith
increment_per_ip-count_of ((k, n) ∷ rest) who ip = elim (Bool-cases (bytes_eq.beq k who)) [
  | inl hit ↦ rw (hit, ← beq-eq k who ip hit) (ground arith)
  | inr miss ↦ elim (Bool-cases (bytes_eq.beq k ip)) [
    | inl found ↦
        let apart : bytes_eq.beq who ip ≡ false = other-eq k who ip miss found in
        rw (miss, found, apart) (omega arith)
    | inr lost ↦ rw (miss, lost) (increment_per_ip-count_of rest who ip)
  ]
]

remove_ip-count_of :
    (per_ip : Counters) (who ip : List ℕ)
    → count_of ip (remove_ip per_ip who) ≡ (if bytes_eq.beq who ip then 0 else count_of ip per_ip)
unfolding count_of remove_ip
remove_ip-count_of [] who ip = ground arith
remove_ip-count_of ((k, n) ∷ rest) who ip = elim (Bool-cases (bytes_eq.beq k who)) [
  | inl hit ↦ rw (hit, beq-eq k who ip hit) (ground (arith, remove_ip-count_of rest who ip))
  | inr miss ↦ elim (Bool-cases (bytes_eq.beq k ip)) [
    | inl found ↦ rw (miss, found, other-eq k who ip miss found) refl
    | inr lost ↦ rw (miss, lost) (remove_ip-count_of rest who ip)
  ]
]

set_count-count_of :
    (per_ip : Counters) (who ip : List ℕ) (m : ℕ)
    → 0 < count_of who per_ip
    → count_of ip (set_count per_ip who m) ≡ (if bytes_eq.beq who ip then m else count_of ip per_ip)
unfolding count_of set_count
set_count-count_of [] who ip m h = absurd (omega arith)
set_count-count_of ((k, n) ∷ rest) who ip m h = elim (Bool-cases (bytes_eq.beq k who)) [
  | inl hit ↦ rw (hit, beq-eq k who ip hit) (ground arith)
  | inr miss ↦
      let h' : 0 < count_of who rest = rw miss at h in
      elim (Bool-cases (bytes_eq.beq k ip)) [
        | inl found ↦ rw (miss, found, other-eq k who ip miss found) refl
        | inr lost ↦ rw (miss, lost) (set_count-count_of rest who ip m h')
      ]
]

pub decrement_per_ip-count_of :
    (per_ip : Counters) (who ip : List ℕ)
    → count_of ip (decrement_per_ip per_ip who) ≡ count_of ip per_ip - one_if (bytes_eq.beq who ip)
unfolding decrement_per_ip
decrement_per_ip-count_of per_ip who ip = elim (Bool-cases (count_of who per_ip - 1 == 0)) [
  | inl last ↦ rw last (
      remove_ip-count_of per_ip who ip ∙ elim (Bool-cases (bytes_eq.beq who ip)) [
        | inl hit ↦ let p = (bytes_eq.beq_iff who ip).0 hit in rw (hit, ← p) (ground (arith, last))
        | inr miss ↦ rw miss (omega arith)
      ])
  | inr more ↦ rw more (
      set_count-count_of per_ip who ip (count_of who per_ip - 1) (ground (arith, more))
      ∙ elim (Bool-cases (bytes_eq.beq who ip)) [
        | inl hit ↦ let p = (bytes_eq.beq_iff who ip).0 hit in rw (hit, ← p) (omega arith)
        | inr miss ↦ rw miss (omega arith)
      ])
]
