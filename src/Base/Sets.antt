-- ===== src/Base/Sets.antt =====
-- A `HashSet` as a list without repetitions, over keys with a Boolean equality.
use hydr.Base.{ℕ, ◌≡◌, refl, sym, ap, ap₂, ◌∙◌, ◌↔◌, List, [], ◌∷◌, ◌++◌, Bool, true, false}
use hydr.Base.{arith, ◌==◌, ==_iff, if◌then◌else◌, ◌||◌, ◌&&◌, Bool-cases, inl, inr}

pub record Eq {ℓ} (A : Type ℓ) : Type ℓ where
  pub beq : (x y : A) → Bool
  pub beq_iff : (x y : A) → (beq x y ≡ true) ↔ (x ≡ y)

instance abbrev pub nat_eq : Eq ℕ
nat_eq = record { beq = ◌==◌; beq_iff = ==_iff }

abbrev pub list_beq {ℓ} : {A : Type ℓ} ⦃e : Eq A⦄ → List A → List A → Bool
list_beq [] [] = true
list_beq [] (y ∷ ys) = false
list_beq (x ∷ xs) [] = false
list_beq ⦃e⦄ (x ∷ xs) (y ∷ ys) = e.beq x y && list_beq xs ys

pub list_beq_refl {ℓ} : {A : Type ℓ} ⦃e : Eq A⦄ (xs : List A) → list_beq xs xs ≡ true
list_beq_refl [] = refl
list_beq_refl ⦃e⦄ (x ∷ xs) = rw ((e.beq_iff x x).1 refl) (list_beq_refl xs)

pub list_beq_sound {ℓ} : {A : Type ℓ} ⦃e : Eq A⦄ (xs ys : List A) → list_beq xs ys ≡ true → xs ≡ ys
list_beq_sound [] [] h = refl
list_beq_sound [] (y ∷ ys) h = cc
list_beq_sound (x ∷ xs) [] h = cc
list_beq_sound ⦃e⦄ (x ∷ xs) (y ∷ ys) h = elim (Bool-cases (e.beq x y)) [
  | inl same ↦
      let rest : list_beq xs ys ≡ true = rw same at h in
      ap₂ ◌∷◌ ((e.beq_iff x y).0 same) (list_beq_sound xs ys rest)
  | inr differs ↦ let no_way : false ≡ true = rw differs at h in cc
]

pub list_beq_iff {ℓ} :
    {A : Type ℓ} ⦃e : Eq A⦄ (xs ys : List A) → (list_beq xs ys ≡ true) ↔ (xs ≡ ys)
list_beq_iff xs ys = (list_beq_sound xs ys, λ p. rw (← p) (list_beq_refl xs))

-- Keys that are byte strings.
instance abbrev pub bytes_eq : Eq (List ℕ)
bytes_eq = record { beq = list_beq; beq_iff = list_beq_iff }

module _ {ℓ} {A : Type ℓ} ⦃e : Eq A⦄ where
  abbrev pub contains : A → List A → Bool
  contains a [] = false
  contains a (x ∷ xs) = e.beq x a || contains a xs

  abbrev pub remove : A → List A → List A
  remove a [] = []
  remove a (x ∷ xs) = let rest = remove a xs in if e.beq x a then rest else x ∷ rest

  abbrev pub Distinct : List A → Type 0
  Distinct [] = Unit
  Distinct (x ∷ xs) = (contains x xs ≡ false) × Distinct xs

  pub beq_refl : (a : A) → e.beq a a ≡ true
  beq_refl a = (e.beq_iff a a).1 refl

  -- Equal keys are compared alike.
  pub beq-eq : (a b x : A) → e.beq a b ≡ true → e.beq a x ≡ e.beq b x
  beq-eq a b x h = ap (λ t. e.beq t x) ((e.beq_iff a b).0 h)

  pub beq_comm : (a b : A) → e.beq a b ≡ e.beq b a
  beq_comm a b = elim (Bool-cases (e.beq a b)) [
    | inl same ↦ let p : a ≡ b = (e.beq_iff a b).0 same in rw (same, ← p) (sym (beq_refl a))
    | inr other ↦ elim (Bool-cases (e.beq b a)) [
      | inl same ↦
          let p : b ≡ a = (e.beq_iff b a).0 same in
          let no_way : true ≡ false = sym (beq_refl a) ∙ rw p at other in cc
      | inr other' ↦ other ∙ sym other'
    ]
  ]

  pub contains-remove :
      (a x : A) (xs : List A)
      → contains x (remove a xs) ≡ (if e.beq a x then false else contains x xs)
  contains-remove a x [] = ground arith
  contains-remove a x (y ∷ ys) = elim (Bool-cases (e.beq y a)) [
    | inl same ↦ rw (same, beq-eq y a x same) (ground (arith, contains-remove a x ys))
    | inr other ↦ elim (Bool-cases (e.beq a x)) [
      | inr apart ↦ rw (other, apart) (ground (arith, contains-remove a x ys))
      | inl hit ↦
          let p : a ≡ x = (e.beq_iff a x).0 hit in
          let miss : e.beq y x ≡ false = rw p at other in
          rw (other, hit, miss) (ground (arith, contains-remove a x ys))
    ]
  ]

  pub contains-snoc :
      (x y : A) (xs : List A) → contains x (xs ++ (y ∷ [])) ≡ (contains x xs || e.beq y x)
  contains-snoc x y [] = ground arith
  contains-snoc x y (z ∷ zs) = ground (arith, contains-snoc x y zs)

  pub Distinct-snoc :
      (y : A) (xs : List A) → Distinct xs → contains y xs ≡ false → Distinct (xs ++ (y ∷ []))
  Distinct-snoc y [] d h = (refl, tt)
  Distinct-snoc y (x ∷ xs) d h =
      let apart : e.beq x y ≡ false = ground (arith, h) in
      let rest : contains y xs ≡ false = ground (arith, h) in
      (rw (contains-snoc x y xs, d.0, beq_comm y x, apart), Distinct-snoc y xs d.1 rest)
