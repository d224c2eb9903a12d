-- ===== src/Nonce.antt =====
-- `NonceCache` of crates/hydr-server/src/lib.rs: the nonces of accepted requests, oldest first, with a
-- time to live. An `Instant` is a number of nanoseconds, and `Instant::now` is an argument;
-- `duration_since` stops at zero, as subtraction here.
pub mod Valid
pub mod Keeps
use hydr.Base.{ℕ, ◌+◌, ◌-◌, ◌*◌, ◌^◌, List, [], ◌∷◌, ◌++◌, Bool, true, false, length, map}
use hydr.Base.{ltb, if◌then◌else◌}
use hydr.Base.Sets.{contains, remove, bytes_eq, nat_eq}

abbrev pub seconds : ℕ → ℕ
seconds n = n * 10 ^ 9

abbrev pub replay_ttl : ℕ
replay_ttl = seconds 600

abbrev pub replay_cache_max : ℕ
replay_cache_max = 8192

abbrev pub Entry : Type 0
Entry = List ℕ × ℕ

pub record NonceCache : Type 0 where
  pub set : List (List ℕ)
  pub order : List Entry
  pub cap : ℕ

unfoldable pub new : ℕ → NonceCache
new cap = record { set = []; order = []; cap = cap }

-- The loop of `evict_expired`.
unfoldable pub evict_from : ℕ → ℕ → List (List ℕ) → List Entry → NonceCache
evict_from now cap set [] = record { set = set; order = []; cap = cap }
evict_from now cap set ((old, t) ∷ order) =
    let rest = evict_from now cap (remove old set) order in
    if ltb (now - t) replay_ttl
    then record { set = set; order = (old, t) ∷ order; cap = cap }
    else rest

unfoldable pub evict_expired : NonceCache → ℕ → NonceCache
unfolding evict_from
evict_expired c now = evict_from now c.cap c.set c.order

-- `while self.order.len() > self.cap { … }`
unfoldable pub shrink : ℕ → List (List ℕ) → List Entry → NonceCache
shrink cap set [] = record { set = set; order = []; cap = cap }
shrink cap set ((old, t) ∷ order) =
    let rest = shrink cap (remove old set) order in
    if ltb cap (length ((old, t) ∷ order))
    then rest
    else record { set = set; order = (old, t) ∷ order; cap = cap }

unfoldable pub insert : NonceCache → ℕ → List ℕ → NonceCache × Bool
insert c now nonce =
    let c1 = evict_expired c now in
    if contains nonce c1.set
    then (c1, false)
    else (shrink c1.cap (nonce ∷ c1.set) (c1.order ++ ((nonce, now) ∷ [])), true)

abbrev pub keys : List Entry → List (List ℕ)
keys = map λ e. e.0
