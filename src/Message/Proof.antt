-- ===== src/Message/Proof.antt =====
-- The proof of the password in crates/hydr-core/src/message.rs: `compute_auth_proof`, the comparison
-- `ct_eq`, and the request that carries the proof. The nonce of `getrandom` is an argument.
use hydr.Base.{ℕ, ◌≡◌, refl, ap₂, ◌↔◌, arith, List, [], ◌∷◌, Bool, true, false, length}
use hydr.Base.{bit_or, bit_xor, ◌==◌, ==_iff, ==_refl, if◌then◌else◌, Bool-cases, inl, inr}
use hydr.Base.Bits.{bit_xor_self, bit_xor-eq-zero, bit_or-eq-zero}
use hydr.Base.Blake3.{Blake3}
use hydr.Base.Results.{Text, text}
use hydr.Message.{AuthRequest, protocol_version, auth_password}

-- `for (x, y) in a.iter().zip(b.iter()) { diff |= x ^ y }`
unfoldable pub difference : ℕ → List ℕ → List ℕ → ℕ
difference diff [] ys = diff
difference diff (x ∷ xs) [] = diff
difference diff (x ∷ xs) (y ∷ ys) = difference (bit_or diff (bit_xor x y)) xs ys

unfoldable pub ct_eq : List ℕ → List ℕ → Bool
ct_eq a b = if length a == length b then difference 0 a b == 0 else false

difference-zero :
    (diff : ℕ) (xs ys : List ℕ)
    → length xs ≡ length ys
    → difference diff xs ys ≡ 0
    → (diff ≡ 0) × (xs ≡ ys)
unfolding difference
difference-zero diff [] [] e h = (h, refl)
difference-zero diff [] (y ∷ ys) e h = absurd (omega arith)
difference-zero diff (x ∷ xs) [] e h = absurd (omega arith)
difference-zero diff (x ∷ xs) (y ∷ ys) e h =
    let (d, rest) = difference-zero (bit_or diff (bit_xor x y)) xs ys (omega arith) h in
    let (clear, same) = bit_or-eq-zero diff (bit_xor x y) d in
    (clear, ap₂ ◌∷◌ (bit_xor-eq-zero x y same) rest)

difference_self : (xs : List ℕ) → difference 0 xs xs ≡ 0
unfolding difference
difference_self [] = refl
difference_self (x ∷ xs) = rw bit_xor_self (difference_self xs)

-- The comparison that takes constant time decides equality.
pub ct_eq_iff : (a b : List ℕ) → (ct_eq a b ≡ true) ↔ (a ≡ b)
unfolding ct_eq
ct_eq_iff a b = (sound, complete)
  where
    sound : ct_eq a b ≡ true → a ≡ b
    sound h = elim (Bool-cases (length a == length b)) [
      | inr other ↦ let no_way : false ≡ true = rw (other, ct_eq) at h in cc
      | inl same ↦
          let zeros : (difference 0 a b == 0) ≡ true = rw (same, ct_eq) at h in
          (difference-zero 0 a b ((==_iff _ _).0 same) ((==_iff _ _).0 zeros)).1
    ]

    complete : a ≡ b → ct_eq a b ≡ true
    complete p = rw (← p, ct_eq, ==_refl (length a), difference_self a)

module _ (b3 : Blake3) where
  open b3 use {derive_key, keyed_hash}

  unfoldable pub compute_auth_proof : Text → List ℕ → List ℕ
  compute_auth_proof password nonce =
      keyed_hash (derive_key (text "hydr v1 auth proof") password) nonce

  -- `new_password_with_nonce`, and `try_new_password` where the random source does not fail.
  unfoldable pub new_password : Text → ℕ → ℕ → List ℕ → AuthRequest
  new_password password cc_rx features nonce = record {
    version = protocol_version;
    auth_method = auth_password;
    client_nonce = nonce;
    auth_proof = compute_auth_proof password nonce;
    cc_rx = cc_rx;
    features = features;
    padding = [];
  }
