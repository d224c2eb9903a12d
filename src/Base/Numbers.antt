-- ===== src/Base/Numbers.antt =====
-- Products and remainders by a power of 256.
use Prim.Native.Nat.{ℕ, zero, suc, ◌+◌, ◌*◌, ◌/◌, ◌%◌, ◌^◌, ◌≤◌, ◌<◌}
use mathlib.Core.Path.{◌≡◌, ◌∙◌, ap}
use native.Mathlib.Omega.{arith}
use native.Mathlib.Nat.{div-add-mod, mul-add-mod_self_left, mod-eq_of_lt, mod-lt}

pub le_mul : (a p : ℕ) → 0 < p → a ≤ a * p
le_mul a p h = grind arith

pub mul_mono : (a b p : ℕ) → a ≤ b → a * p ≤ b * p
mul_mono a b p h = grind arith

pub pow_pos : (k : ℕ) → 0 < 256 ^ k
pow_pos zero = omega arith
pow_pos (suc k) = let e : 256 ^ suc k ≡ 256 * 256 ^ k = omega arith in omega (arith, pow_pos k, e)

pub mod_split : (v p : ℕ) → 0 < p → v % (256 * p) ≡ v / p % 256 * p + v % p
mod_split v p h =
    let low : ℕ = v / p % 256 * p + v % p in
    let parts : v ≡ 256 * p * (v / p / 256) + low =
      omega (arith, div-add-mod v p, ap (λ t. p * t) (div-add-mod (v / p) 256)) in
    let fits : low < 256 * p =
      omega (arith, mul_mono (v / p % 256) 255 p (omega arith), mod-lt v h) in
    ap (λ t. t % (256 * p)) parts
    ∙ mul-add-mod_self_left (256 * p) (v / p / 256) low
    ∙ mod-eq_of_lt fits
