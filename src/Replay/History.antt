-- ===== src/Replay/History.antt =====
-- The filter against a specification that remembers every number that it has accepted.
use hydr.Base.{ℕ, ◌-◌, ◌*◌, ◌≤◌, ◌≡◌, refl, ap₂, ◌∙◌, arith, List, [], ◌∷◌, Bool, true, false}
use hydr.Base.{
  ltb, leb, ◌==◌, ==_refl, ◌||◌, ap, lt→ltb, le→ltb, le→leb, lt→leb, if◌then◌else◌, ◌&&◌, not,
  length, max, Bool-cases, inl, inr,
}
use hydr.Base.Sets.{contains, nat_eq, Distinct}
use native.Mathlib.Decide.{dec_lt}
use hydr.Replay.{Filter, new, retain_from, advance, trim, observe, observe_all}

abbrev pub maximum : List ℕ → ℕ
maximum [] = 0
maximum (x ∷ xs) = max x (maximum xs)

-- A number is fresh unless it was accepted before or lies more than the window behind the greatest
-- accepted one.
abbrev pub is_fresh : ℕ → List ℕ → ℕ → Bool
is_fresh window accepted seq = leb (maximum accepted - window) seq && not (contains seq accepted)

abbrev pub note : ℕ → List ℕ → ℕ → List ℕ
note window accepted seq = if is_fresh window accepted seq then seq ∷ accepted else accepted

abbrev pub fresh_all : ℕ → List ℕ → List ℕ → List Bool
fresh_all window accepted [] = []
fresh_all window accepted (seq ∷ seqs) =
    is_fresh window accepted seq ∷ fresh_all window (note window accepted seq) seqs

-- The filter stands for the history: below its floor it may have forgotten.
record Tracks (g : Filter) (accepted : List ℕ) : Type 0 where
  greatest : g.last ≡ maximum accepted
  bottom : g.floor ≡ g.last - g.window
  known : (x : ℕ) → g.floor ≤ x → contains x g.seen ≡ contains x accepted

contains-retain_from :
    (min x : ℕ) (xs : List ℕ) → min ≤ x → contains x (retain_from min xs) ≡ contains x xs
unfolding retain_from
contains-retain_from min x [] h = refl
contains-retain_from min x (y ∷ ys) h = ground (arith, contains-retain_from min x ys h)

new-Tracks : (window : ℕ) → Tracks (new window) []
unfolding new
new-Tracks window = record { greatest = refl; bottom = omega arith; known = λ x h. refl }

trim-Tracks : (g : Filter) (accepted : List ℕ) → Tracks g accepted → Tracks (trim g) accepted
unfolding trim
trim-Tracks g accepted t = elim (Bool-cases (ltb (g.window * 2) (length g.seen))) [
  | inr small ↦ rw (small, trim) t
  | inl large ↦
      rw (large, trim)
        (record {
          greatest = t.greatest;
          bottom = t.bottom;
          known = λ x h. contains-retain_from g.floor x g.seen h ∙ t.known x h;
        })
]

advance-Tracks :
    (g : Filter) (accepted : List ℕ) (seq : ℕ)
    → Tracks g accepted
    → Tracks (advance (record g { seen = seq ∷ g.seen }) seq) (seq ∷ accepted)
unfolding advance
advance-Tracks g accepted seq t = elim (dec_lt g.last seq) [
  | yes more ↦
      rw (lt→ltb g.last seq more, advance)
        (record {
          greatest = omega (arith, t.greatest);
          bottom = refl;
          known = λ x h. ap (λ b. seq == x || b) (t.known x (omega (arith, t.bottom)));
        })
  | no same ↦
      rw (le→ltb g.last seq (omega arith), advance)
        (record {
          greatest = omega (arith, t.greatest);
          bottom = t.bottom;
          known = λ x h. ap (λ b. seq == x || b) (t.known x h);
        })
]

observe-Tracks :
    (g : Filter) (accepted : List ℕ) (seq : ℕ)
    → Tracks g accepted
    → ((observe g seq).1 ≡ is_fresh g.window accepted seq)
      × Tracks (observe g seq).0 (note g.window accepted seq)
unfolding observe
observe-Tracks g accepted seq t =
    let e : maximum accepted - g.window ≡ g.floor = omega (arith, t.greatest, t.bottom) in
    elim (dec_lt seq g.floor) [
      | yes old ↦ rw (e, lt→ltb seq g.floor old, lt→leb g.floor seq old, observe) (refl, t)
      | no young ↦ elim (Bool-cases (contains seq accepted)) [
        | inl again ↦
            rw
              (
                e,
                le→ltb seq g.floor (omega arith),
                le→leb g.floor seq (omega arith),
                t.known seq (omega arith),
                again,
                observe,
              )
              (refl, t)
        | inr first ↦
            rw
              (
                e,
                le→ltb seq g.floor (omega arith),
                le→leb g.floor seq (omega arith),
                t.known seq (omega arith),
                first,
                observe,
              )
              (refl, trim-Tracks _ _ (advance-Tracks g accepted seq t))
      ]
    ]

pub window-observe : (g : Filter) (seq : ℕ) → (observe g seq).0.window ≡ g.window
unfolding observe advance trim
window-observe g seq = ground arith

observe_all-fresh :
    (seqs : List ℕ) (g : Filter) (accepted : List ℕ)
    → Tracks g accepted
    → (observe_all g seqs).1 ≡ fresh_all g.window accepted seqs
unfolding observe_all
observe_all-fresh [] g accepted t = refl
observe_all-fresh (seq ∷ seqs) g accepted t =
    let (answer, t') = observe-Tracks g accepted seq t in
    let rest = observe_all-fresh seqs (observe g seq).0 _ t' in
    ap₂ ◌∷◌ answer
      (rest ∙ ap (λ w. fresh_all w (note g.window accepted seq) seqs) (window-observe g seq))

-- On every sequence of packet numbers a new filter gives the answers of the specification that
-- remembers all accepted numbers: forgetting those below the floor changes no answer.
pub observe_all-new :
    (window : ℕ) (seqs : List ℕ) → (observe_all (new window) seqs).1 ≡ fresh_all window [] seqs
unfolding new
observe_all-new window seqs = observe_all-fresh seqs (new window) [] (new-Tracks window)

-- The numbers that a filter lets through.
unfoldable pub passed : Filter → List ℕ → List ℕ
passed g [] = []
passed g (seq ∷ seqs) =
    let rest = passed (observe g seq).0 seqs in if (observe g seq).1 then seq ∷ rest else rest

passed-avoids :
    (seqs : List ℕ) (g : Filter) (accepted : List ℕ) (x : ℕ)
    → Tracks g accepted
    → contains x accepted ≡ true
    → contains x (passed g seqs) ≡ false
unfolding passed
passed-avoids [] g accepted x t h = refl
passed-avoids (seq ∷ seqs) g accepted x t h =
    let (answer, t') = observe-Tracks g accepted seq t in
    elim (Bool-cases (is_fresh g.window accepted seq)) [
      | inr stale ↦
          let again : Tracks (observe g seq).0 accepted = rw stale at t' in
          rw (answer, stale) (passed-avoids seqs (observe g seq).0 accepted x again h)
      | inl fresh ↦
          let again : Tracks (observe g seq).0 (seq ∷ accepted) = rw fresh at t' in
          let other : (seq == x) ≡ false = ground arith in
          rw (answer, fresh, other)
            (passed-avoids seqs (observe g seq).0 (seq ∷ accepted) x again (rw (other, h)))
    ]

passed-Distinct :
    (seqs : List ℕ) (g : Filter) (accepted : List ℕ) → Tracks g accepted → Distinct (passed g seqs)
unfolding passed
passed-Distinct [] g accepted t = tt
passed-Distinct (seq ∷ seqs) g accepted t =
    let (answer, t') = observe-Tracks g accepted seq t in
    elim (Bool-cases (is_fresh g.window accepted seq)) [
      | inr stale ↦ rw (answer, stale) (passed-Distinct seqs (observe g seq).0 _ t')
      | inl fresh ↦
          let again : Tracks (observe g seq).0 (seq ∷ accepted) = rw fresh at t' in
          rw (answer, fresh)
            (
              passed-avoids seqs (observe g seq).0 (seq ∷ accepted) seq again (rw (==_refl seq)),
              passed-Distinct seqs (observe g seq).0 (seq ∷ accepted) again,
            )
    ]

-- Whatever is replayed, and however late, no number is let through twice.
pub passed-new-Distinct : (window : ℕ) (seqs : List ℕ) → Distinct (passed (new window) seqs)
passed-new-Distinct window seqs = passed-Distinct seqs (new window) [] (new-Tracks window)
