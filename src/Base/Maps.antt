-- ===== src/Base/Maps.antt =====
-- A `HashMap` with numbers for keys, as a list: `get` and `remove_entry` take the first entry of a key,
-- and `put` replaces it.
use hydr.Base.{ℕ, ◌≡◌, refl, List, [], ◌∷◌, false, Option, none, some}
use hydr.Base.{◌==◌, ==_iff, if◌then◌else◌, Bool-cases, inl, inr}

abbrev pub Map {ℓ} : Type ℓ → Type ℓ
Map A = List (ℕ × A)

module _ {ℓ} {A : Type ℓ} where
  unfoldable pub get : ℕ → Map A → Option A
  get k [] = none
  get k ((j, a) ∷ m) = let rest = get k m in if j == k then some a else rest

  unfoldable pub remove_entry : ℕ → Map A → Map A
  remove_entry k [] = []
  remove_entry k ((j, a) ∷ m) = let rest = remove_entry k m in if j == k then m else (j, a) ∷ rest

  unfoldable pub put : ℕ → A → Map A → Map A
  unfolding remove_entry
  put k a m = (k, a) ∷ remove_entry k m

  pub get-remove_entry_other :
      (k j : ℕ) (m : Map A) → (k == j) ≡ false → get j (remove_entry k m) ≡ get j m
  unfolding get remove_entry
  get-remove_entry_other k j [] h = refl
  get-remove_entry_other k j ((i, a) ∷ m) h = elim (Bool-cases (i == k)) [
    | inl hit ↦
        let p : i ≡ k = (==_iff i k).0 hit in
        let miss : (i == j) ≡ false = rw p h in rw (hit, miss) refl
    | inr other ↦ elim (Bool-cases (i == j)) [
      | inl found ↦ rw (other, found) refl
      | inr lost ↦ rw (other, lost) (get-remove_entry_other k j m h)
    ]
  ]

  -- The map after `put`, at every key.
  pub get-put :
      (k j : ℕ) (a : A) (m : Map A) → get j (put k a m) ≡ (if k == j then some a else get j m)
  unfolding get put
  get-put k j a m = elim (Bool-cases (k == j)) [
    | inl hit ↦ rw hit refl
    | inr miss ↦ rw miss (get-remove_entry_other k j m miss)
  ]
