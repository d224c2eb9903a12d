-- ===== src/Base/Blake3.antt =====
-- What the code relies on of the crate `blake3`: its hashes have 32 bytes. `Hasher::update` twice and
-- `finalize` is the hash of the two inputs joined.
use hydr.Base.{ℕ, zero, suc, ◌+◌, ◌%◌, ◌<◌, ◌≡◌, refl, ap, List, [], ◌∷◌, ◌++◌, length, All, arith}
use hydr.Varint.Bytes.{IsByte}

pub record Blake3 : Type 0 where
  pub hash : List ℕ → List ℕ
  pub derive_key : List ℕ → List ℕ → List ℕ
  pub keyed_hash : List ℕ → List ℕ → List ℕ
  pub length-hash : (m : List ℕ) → length (hash m) ≡ 32
  pub hash-IsByte : (m : List ℕ) → All IsByte (hash m)
  pub length-keyed_hash : (k m : List ℕ) → length (keyed_hash k m) ≡ 32
  pub keyed_hash-IsByte : (k m : List ℕ) → All IsByte (keyed_hash k m)

-- The laws hold of a checksum, repeated.
abbrev pub repeat : ℕ → ℕ → List ℕ
repeat zero b = []
repeat (suc n) b = b ∷ repeat n b

abbrev pub checksum : ℕ → List ℕ → ℕ
checksum acc [] = acc % 256
checksum acc (b ∷ bs) = checksum (acc + acc + b) bs

pub length-repeat : (n b : ℕ) → length (repeat n b) ≡ n
length-repeat zero b = refl
length-repeat (suc n) b = ap suc (length-repeat n b)

repeat-IsByte : (n b : ℕ) → b < 256 → All IsByte (repeat n b)
repeat-IsByte zero b h = tt
repeat-IsByte (suc n) b h = (h, repeat-IsByte n b h)

checksum-lt : (acc : ℕ) (bs : List ℕ) → checksum acc bs < 256
checksum-lt acc [] = omega arith
checksum-lt acc (b ∷ bs) = checksum-lt (acc + acc + b) bs

pub length-checksum : (m : List ℕ) → length (repeat 32 (checksum 1 m)) ≡ 32
length-checksum m = length-repeat 32 (checksum 1 m)

pub checksum-IsByte : (m : List ℕ) → All IsByte (repeat 32 (checksum 1 m))
checksum-IsByte m = repeat-IsByte 32 (checksum 1 m) (checksum-lt 1 m)

abbrev pub toy : Blake3
toy = record {
  hash = λ m. repeat 32 (checksum 1 m);
  derive_key = λ c m. repeat 32 (checksum 1 m);
  keyed_hash = λ k m. repeat 32 (checksum 1 (k ++ m));
  length-hash = length-checksum;
  hash-IsByte = checksum-IsByte;
  length-keyed_hash = λ k m. length-checksum (k ++ m);
  keyed_hash-IsByte = λ k m. checksum-IsByte (k ++ m);
}
