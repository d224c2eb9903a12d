-- ===== src/Varint/Bytes.antt =====
-- Byte buffers: `Vec::push`, `extend_from_slice`, `to_be_bytes` and `from_be_bytes`.
use hydr.Base.{ℕ, zero, suc, ◌+◌, ◌*◌, ◌/◌, ◌%◌, ◌^◌, ◌<◌, ◌≡◌, refl, List, [], ◌∷◌, ◌++◌}
use hydr.Base.{arith, length, All}
use mathlib.Core.List.{foldl}

abbrev pub IsByte : ℕ → Type 0
IsByte b = b < 256

abbrev pub IsU64 : ℕ → Type 0
IsU64 v = v < 2 ^ 64

abbrev pub push : List ℕ → ℕ → List ℕ
push buf b = buf ++ (b ∷ [])

abbrev pub extend : List ℕ → List ℕ → List ℕ
extend buf bs = buf ++ bs

-- The `k` low bytes of a number, the highest first.
unfoldable pub be_bytes : ℕ → ℕ → List ℕ
be_bytes zero v = []
be_bytes (suc k) v = (v / 256 ^ k % 256) ∷ be_bytes k v

unfoldable pub from_be_bytes : List ℕ → ℕ
from_be_bytes = foldl (λ v b. v * 256 + b) 0

pub length-be_bytes : (k v : ℕ) → length (be_bytes k v) ≡ k
unfolding be_bytes
length-be_bytes zero v = refl
length-be_bytes (suc k) v = omega (arith, length-be_bytes k v)

pub be_bytes-IsByte : (k v : ℕ) → All IsByte (be_bytes k v)
unfolding be_bytes
be_bytes-IsByte zero v = tt
be_bytes-IsByte (suc k) v = (omega arith, be_bytes-IsByte k v)

pub from_be-be_bytes_two : (v : ℕ) → v < 2 ^ 16 → from_be_bytes (be_bytes 2 v) ≡ v
unfolding be_bytes from_be_bytes
from_be-be_bytes_two v h = omega arith

pub from_be-be_bytes_four : (v : ℕ) → v < 2 ^ 32 → from_be_bytes (be_bytes 4 v) ≡ v
unfolding be_bytes from_be_bytes
from_be-be_bytes_four v h = omega arith

pub from_be-be_bytes_eight : (v : ℕ) → v < 2 ^ 64 → from_be_bytes (be_bytes 8 v) ≡ v
unfolding be_bytes from_be_bytes
from_be-be_bytes_eight v h = omega arith
