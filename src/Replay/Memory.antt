-- ===== src/Replay/Memory.antt =====
-- The filter's set stays bounded by the window.
use hydr.Base.{ℕ, zero, suc, ◌+◌, ◌-◌, ◌*◌, ◌≤◌, ◌<◌, ◌≡◌, refl, ◌∙◌, arith, List, [], ◌∷◌, false}
use hydr.Base.{ltb, length, max, Bool-cases, inl, inr, All}
use hydr.Base.{lt→ltb, le→ltb}
use hydr.Base.Sets.{contains, nat_eq, Distinct, remove}
use hydr.Replay.History.{window-observe}
use hydr.Replay.{Filter, new, retain_from, advance, trim, observe, observe_all}
use native.Mathlib.Decide.{dec_lt}

-- Every element lies in a half-open interval.
abbrev In : ℕ → ℕ → List ℕ → Type 0
In lo hi = All (λ x. (lo ≤ x) × (x < hi))

contains-remove : (a x : ℕ) (xs : List ℕ) → contains x xs ≡ false → contains x (remove a xs) ≡ false
contains-remove a x [] h = refl
contains-remove a x (y ∷ ys) h = ground (arith, contains-remove a x ys)

Distinct-remove : (a : ℕ) (xs : List ℕ) → Distinct xs → Distinct (remove a xs)
Distinct-remove a [] d = tt
Distinct-remove a (x ∷ xs) d = ground (arith, Distinct-remove a xs d.1, contains-remove a x xs d.0)

remove_absent : (a : ℕ) (xs : List ℕ) → contains a xs ≡ false → length (remove a xs) ≡ length xs
remove_absent a [] h = refl
remove_absent a (x ∷ xs) h = ground (arith, remove_absent a xs)

length-remove : (a : ℕ) (xs : List ℕ) → Distinct xs → length xs ≤ suc (length (remove a xs))
length-remove a [] d = omega arith
length-remove a (x ∷ xs) d = ground (arith, length-remove a xs d.1, remove_absent a xs, d.0)

In-remove : (lo hi : ℕ) (xs : List ℕ) → In lo (suc hi) xs → In lo hi (remove hi xs)
In-remove lo hi [] h = tt
In-remove lo hi (x ∷ xs) h = ground (arith, In-remove lo hi xs h.1)

-- Distinct numbers of an interval are no more than its width.
Distinct-length : (k lo : ℕ) (xs : List ℕ) → Distinct xs → In lo (lo + k) xs → length xs ≤ k
Distinct-length zero lo [] d h = omega arith
Distinct-length zero lo (x ∷ xs) d h = absurd (omega (arith, h.0))
Distinct-length (suc k) lo xs d h =
    let e : lo + suc k ≡ suc (lo + k) = omega arith in
    let h' : In lo (suc (lo + k)) xs = rw e at h in
    omega (
      arith,
      length-remove (lo + k) xs d,
      Distinct-length k lo (remove (lo + k) xs) (Distinct-remove (lo + k) xs d)
          (In-remove lo (lo + k) xs h'),
    )

pub contains-retain_from-false :
    (min x : ℕ) (xs : List ℕ) → contains x xs ≡ false → contains x (retain_from min xs) ≡ false
unfolding retain_from
contains-retain_from-false min x [] h = refl
contains-retain_from-false min x (y ∷ ys) h = ground (arith, contains-retain_from-false min x ys)

Distinct-retain_from : (min : ℕ) (xs : List ℕ) → Distinct xs → Distinct (retain_from min xs)
unfolding retain_from
Distinct-retain_from min [] d = tt
Distinct-retain_from min (x ∷ xs) d =
    ground (arith, Distinct-retain_from min xs d.1, contains-retain_from-false min x xs d.0)

In-retain_from : (min hi : ℕ) (xs : List ℕ) → In 0 hi xs → In min hi (retain_from min xs)
unfolding retain_from
In-retain_from min hi [] h = tt
In-retain_from min hi (x ∷ xs) h = ground (arith, In-retain_from min hi xs h.1)

In-mono : (lo hi hi' : ℕ) (xs : List ℕ) → hi ≤ hi' → In lo hi xs → In lo hi' xs
In-mono lo hi hi' [] k h = tt
In-mono lo hi hi' (x ∷ xs) k h = ((h.0.0, omega (arith, h.0)), In-mono lo hi hi' xs k h.1)

In-weaken : (min hi : ℕ) (xs : List ℕ) → In min hi xs → In 0 hi xs
In-weaken min hi [] h = tt
In-weaken min hi (x ∷ xs) h = ((omega arith, h.0.1), In-weaken min hi xs h.1)

-- The numbers are distinct and none is above the last; the bound is on how many there are.
pub record IsBounded (g : Filter) : Type 0 where
  pub distinct : Distinct g.seen
  pub below : In 0 (suc g.last) g.seen
  pub bottom : g.floor ≡ g.last - g.window
  pub size : length g.seen ≤ max (g.window * 2) (suc g.window)

-- The same before the clean-up, where one number more may be held.
record IsTrimmable (g : Filter) : Type 0 where
  distinct : Distinct g.seen
  below : In 0 (suc g.last) g.seen
  bottom : g.floor ≡ g.last - g.window

trim-IsBounded : (g : Filter) → IsTrimmable g → IsBounded (trim g)
unfolding trim
trim-IsBounded g t = elim (dec_lt (g.window * 2) (length g.seen)) [
  | no small ↦
      rw (le→ltb (g.window * 2) (length g.seen) (omega arith), trim)
        (record { distinct = t.distinct; below = t.below; bottom = t.bottom; size = omega arith })
  | yes large ↦
      let kept = retain_from g.floor g.seen in
      let d = Distinct-retain_from g.floor g.seen t.distinct in
      let inside = In-retain_from g.floor (suc g.last) g.seen t.below in
      let wide : In g.floor (g.floor + suc g.window) kept =
        In-mono g.floor (suc g.last) (g.floor + suc g.window) kept (omega (arith, t.bottom))
          inside in
      rw (lt→ltb (g.window * 2) (length g.seen) large, trim)
        (record {
          distinct = d;
          below = In-weaken g.floor (suc g.last) kept inside;
          bottom = t.bottom;
          size = omega (arith, Distinct-length (suc g.window) g.floor kept d wide);
        })
]

advance-IsTrimmable :
    (g : Filter) (seq : ℕ)
    → IsBounded g
    → contains seq g.seen ≡ false
    → IsTrimmable (advance (record g { seen = seq ∷ g.seen }) seq)
unfolding advance
advance-IsTrimmable g seq b fresh = elim (dec_lt g.last seq) [
  | yes more ↦
      rw (lt→ltb g.last seq more, advance)
        (record {
          distinct = (fresh, b.distinct);
          below = (
            (omega arith, omega arith),
            In-mono 0 (suc g.last) (suc seq) g.seen (omega arith) b.below,
          );
          bottom = refl;
        })
  | no same ↦
      rw (le→ltb g.last seq (omega arith), advance)
        (record {
          distinct = (fresh, b.distinct);
          below = ((omega arith, omega arith), b.below);
          bottom = b.bottom;
        })
]

observe-IsBounded : (g : Filter) (seq : ℕ) → IsBounded g → IsBounded (observe g seq).0
unfolding observe
observe-IsBounded g seq b = elim (Bool-cases (ltb seq g.floor)) [
  | inl old ↦ rw (old, observe) b
  | inr young ↦ elim (Bool-cases (contains seq g.seen)) [
    | inl again ↦ rw (young, again, observe) b
    | inr fresh ↦ rw (young, fresh, observe) (trim-IsBounded _ (advance-IsTrimmable g seq b fresh))
  ]
]

observe_all-IsBounded :
    (seqs : List ℕ) (g : Filter) → IsBounded g → IsBounded (observe_all g seqs).0
unfolding observe_all
observe_all-IsBounded [] g b = b
observe_all-IsBounded (seq ∷ seqs) g b =
    observe_all-IsBounded seqs (observe g seq).0 (observe-IsBounded g seq b)

window-observe_all : (seqs : List ℕ) (g : Filter) → (observe_all g seqs).0.window ≡ g.window
unfolding observe_all
window-observe_all [] g = refl
window-observe_all (seq ∷ seqs) g = window-observe_all seqs (observe g seq).0 ∙ window-observe g seq

-- Whatever numbers arrive, the set of a new filter holds no number twice and stays within twice the
-- window (or the window and one, where that is more).
pub observe_all-new-size :
    (window : ℕ) (seqs : List ℕ)
    → Distinct (observe_all (new window) seqs).0.seen
      × (length (observe_all (new window) seqs).0.seen ≤ max (window * 2) (suc window))
observe_all-new-size window seqs =
    let start : IsBounded (new window) =
      unfold new in
      record { distinct = tt; below = tt; bottom = omega arith; size = omega arith } in
    let b = observe_all-IsBounded seqs (new window) start in
    let same : (observe_all (new window) seqs).0.window ≡ window =
      window-observe_all seqs (new window) ∙ unfold new in refl in
    (b.distinct, rw same at b.size)
