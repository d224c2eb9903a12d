-- ===== src/Base/Bits.antt =====
-- Bitwise operations as arithmetic. The native operations have no laws at variables but their
-- definition by binary digits, from which one step per digit is derived here.
use Prim.Native.Nat.{ℕ, zero, suc, ◌+◌, ◌*◌, ◌/◌, ◌%◌, ◌^◌, ◌≤◌, ◌<◌, max, differ}
use Prim.Native.Nat.{bit_and, bit_or, bit_xor, digits, bit_or-bitwise, bit_xor-bitwise}
use mathlib.Core.Path.{◌≡◌, refl, ap, ◌∙◌}
use mathlib.Core.Bool.{Bool, true, ◌&&◌}
use native.Mathlib.Omega.{arith}
use hydr.Base.Tests.{◌==◌, ==_iff}

pub pow_suc : (n : ℕ) → 2 ^ suc n ≡ 2 * 2 ^ n
pow_suc n = omega arith

-- An operation on digits that keeps the second number where the first has run out.
module _ (f : ℕ → ℕ → ℕ) where
  abbrev by_digits : ℕ → ℕ → ℕ → ℕ
  by_digits n a b = digits (λ b. b) f n a b

  -- Any two amounts of fuel that bound the first number give the same digits.
  enough_digits : (a k l b : ℕ) → a ≤ k → a ≤ l → by_digits k a b ≡ by_digits l a b
  enough_digits zero zero zero b low high = refl
  enough_digits zero zero (suc l) b low high = refl
  enough_digits zero (suc k) zero b low high = refl
  enough_digits zero (suc k) (suc l) b low high = refl
  enough_digits (suc a) zero l b low high = absurd (omega arith)
  enough_digits (suc a) (suc k) zero b low high = absurd (omega arith)
  enough_digits (suc a) (suc k) (suc l) b low high =
      let rest = enough_digits (suc a / 2) k l (b / 2) (omega arith) (omega arith) in
      omega (arith, rest)

differ-mod : (d e : ℕ) → d < 2 → e < 2 → differ d e ≡ (d + e) % 2
differ-mod zero zero h k = refl
differ-mod zero (suc zero) h k = refl
differ-mod zero (suc (suc e)) h k = absurd (omega arith)
differ-mod (suc zero) zero h k = refl
differ-mod (suc zero) (suc zero) h k = refl
differ-mod (suc zero) (suc (suc e)) h k = absurd (omega arith)
differ-mod (suc (suc d)) e h k = absurd (omega arith)

pub zero-bit_xor : (b : ℕ) → bit_xor 0 b ≡ b
zero-bit_xor b = bit_xor-bitwise 0 b

pub zero-bit_or : (b : ℕ) → bit_or 0 b ≡ b
zero-bit_or b = bit_or-bitwise 0 b

pub bit_xor_step : (a b : ℕ) → bit_xor a b ≡ bit_xor (a / 2) (b / 2) * 2 + (a % 2 + b % 2) % 2
bit_xor_step zero b = omega (arith, zero-bit_xor b, zero-bit_xor (b / 2))
bit_xor_step (suc a) b = omega (
  arith,
  bit_xor-bitwise (suc a) b,
  bit_xor-bitwise (suc a / 2) (b / 2),
  enough_digits differ (suc a / 2) a (suc a / 2) (b / 2) (omega arith) (omega arith),
  differ-mod (suc a % 2) (b % 2) (omega arith) (omega arith),
)

pub bit_or_step : (a b : ℕ) → bit_or a b ≡ bit_or (a / 2) (b / 2) * 2 + max (a % 2) (b % 2)
bit_or_step zero b = omega (arith, zero-bit_or b, zero-bit_or (b / 2))
bit_or_step (suc a) b = omega (
  arith,
  bit_or-bitwise (suc a) b,
  bit_or-bitwise (suc a / 2) (b / 2),
  enough_digits max (suc a / 2) a (suc a / 2) (b / 2) (omega arith) (omega arith),
)

-- Two numbers of at most `n` digits; `n` serves as a bound on the numbers too.
bit_xor-cancel_fuel : (n a k : ℕ) → a ≤ n → k ≤ n → bit_xor (bit_xor a k) k ≡ a
bit_xor-cancel_fuel zero zero zero p q = refl
bit_xor-cancel_fuel zero zero (suc k) p q = absurd (omega arith)
bit_xor-cancel_fuel zero (suc a) k p q = absurd (omega arith)
bit_xor-cancel_fuel (suc n) a k p q =
    let half : bit_xor a k / 2 ≡ bit_xor (a / 2) (k / 2) = omega (arith, bit_xor_step a k) in
    let rest =
      ap (λ t. bit_xor t (k / 2)) half
      ∙ bit_xor-cancel_fuel n (a / 2) (k / 2) (omega arith) (omega arith) in
    omega (arith, bit_xor_step a k, bit_xor_step (bit_xor a k) k, rest)

pub bit_xor-cancel : (a k : ℕ) → bit_xor (bit_xor a k) k ≡ a
bit_xor-cancel a k = bit_xor-cancel_fuel (a + k) a k (omega arith) (omega arith)

bit_xor-self_fuel : (n a : ℕ) → a ≤ n → bit_xor a a ≡ 0
bit_xor-self_fuel zero zero p = refl
bit_xor-self_fuel zero (suc a) p = absurd (omega arith)
bit_xor-self_fuel (suc n) a p =
    omega (arith, bit_xor_step a a, bit_xor-self_fuel n (a / 2) (omega arith))

pub bit_xor_self : (a : ℕ) → bit_xor a a ≡ 0
bit_xor_self a = bit_xor-self_fuel a a (omega arith)

bit_xor-eq-zero_fuel : (n a b : ℕ) → a ≤ n → b ≤ n → bit_xor a b ≡ 0 → a ≡ b
bit_xor-eq-zero_fuel zero a b p q e = omega arith
bit_xor-eq-zero_fuel (suc n) a b p q e =
    let s = bit_xor_step a b in
    omega
      (arith, s, bit_xor-eq-zero_fuel n (a / 2) (b / 2) (omega arith) (omega arith) (omega arith))

pub bit_xor-eq-zero : (a b : ℕ) → bit_xor a b ≡ 0 → a ≡ b
bit_xor-eq-zero a b = bit_xor-eq-zero_fuel (a + b) a b (omega arith) (omega arith)

bit_or-eq-zero_fuel : (n a b : ℕ) → a ≤ n → b ≤ n → bit_or a b ≡ 0 → (a ≡ 0) × (b ≡ 0)
bit_or-eq-zero_fuel zero a b p q e = omega arith
bit_or-eq-zero_fuel (suc n) a b p q e =
    let s = bit_or_step a b in
    let (u, v) = bit_or-eq-zero_fuel n (a / 2) (b / 2) (omega arith) (omega arith) (omega arith) in
    (omega (arith, s, u), omega (arith, s, v))

pub bit_or-eq-zero : (a b : ℕ) → bit_or a b ≡ 0 → (a ≡ 0) × (b ≡ 0)
bit_or-eq-zero a b = bit_or-eq-zero_fuel (a + b) a b (omega arith) (omega arith)

pub bit_xor-lt : (n a b : ℕ) → a < 2 ^ n → b < 2 ^ n → bit_xor a b < 2 ^ n
bit_xor-lt zero zero zero p q = omega arith
bit_xor-lt zero zero (suc b) p q = absurd (omega arith)
bit_xor-lt zero (suc a) b p q = absurd (omega arith)
bit_xor-lt (suc n) a b p q =
    let e = pow_suc n in
    omega (
      arith,
      e,
      bit_xor_step a b,
      bit_xor-lt n (a / 2) (b / 2) (omega (arith, e)) (omega (arith, e)),
    )

bit_or-zero_fuel : (n a : ℕ) → a ≤ n → bit_or a 0 ≡ a
bit_or-zero_fuel zero zero p = refl
bit_or-zero_fuel zero (suc a) p = absurd (omega arith)
bit_or-zero_fuel (suc n) a p =
    omega (arith, bit_or_step a 0, bit_or-zero_fuel n (a / 2) (omega arith))

-- Setting digits below those of a shifted number adds them.
pub bit_or-shift : (n v b : ℕ) → b < 2 ^ n → bit_or (v * 2 ^ n) b ≡ v * 2 ^ n + b
bit_or-shift zero v zero h =
    let e : v * 2 ^ 0 ≡ v = omega arith in rw e (bit_or-zero_fuel v v (omega arith) ∙ omega arith)
bit_or-shift zero v (suc b) h = absurd (omega arith)
bit_or-shift (suc n) v b h =
    let e = pow_suc n in
    let whole : v * 2 ^ suc n ≡ 2 * (v * 2 ^ n) = omega (arith, ap (λ (t : ℕ). v * t) e) in
    let half : v * 2 ^ suc n / 2 ≡ v * 2 ^ n = omega (arith, whole) in
    omega (
      arith,
      whole,
      bit_or_step (v * 2 ^ suc n) b,
      ap (λ t. bit_or t (b / 2)) half,
      bit_or-shift n v (b / 2) (omega (arith, e)),
    )

-- Masks on one byte, checked value by value.
module _ (test : ℕ → Bool) where
  passes_below : ℕ → Bool
  passes_below zero = true
  passes_below (suc k) = passes_below k && test k

  passes_below_each : (k x : ℕ) → passes_below k ≡ true → x < k → test x ≡ true
  unfolding passes_below
  passes_below_each zero x h bound = absurd (omega arith)
  passes_below_each (suc k) x h bound = ground (arith, passes_below_each k x)

pub bit_and_63 : (b : ℕ) → b < 256 → bit_and b 0x3f ≡ b % 64
unfolding passes_below
bit_and_63 b h = (==_iff _ _).0 (passes_below_each (λ x. bit_and x 0x3f == x % 64) 256 b refl h)

pub bit_or_64 : (b : ℕ) → b < 64 → bit_or b 0x40 ≡ b + 64
unfolding passes_below
bit_or_64 b h = (==_iff _ _).0 (passes_below_each (λ x. bit_or x 0x40 == x + 64) 64 b refl h)

pub bit_or_128 : (b : ℕ) → b < 64 → bit_or b 0x80 ≡ b + 128
unfolding passes_below
bit_or_128 b h = (==_iff _ _).0 (passes_below_each (λ x. bit_or x 0x80 == x + 128) 64 b refl h)

pub bit_or_192 : (b : ℕ) → b < 256 → bit_or b 0xc0 ≡ b % 64 + 192
unfolding passes_below
bit_or_192 b h =
    (==_iff _ _).0 (passes_below_each (λ x. bit_or x 0xc0 == x % 64 + 192) 256 b refl h)
