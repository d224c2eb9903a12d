-- ===== src/Base/Trim.antt =====
-- `str::trim` on the bytes of a text: the characters with the property White_Space are taken from both
-- ends. In a valid text the bytes of such a character are found at an end only as this character.
use Prim.Native.Nat.{ℕ, zero, suc, ◌≤◌}
use mathlib.Core.Path.{◌≡◌, refl, sym, ap, ◌∙◌}
use mathlib.Core.List.{
  [], ◌∷◌, ◌++◌, append_assoc, reverse, reverse-cons, reverse-append, reverse-reverse,
}
use mathlib.Core.Bool.{Bool, ◌&&◌, ◌||◌}
use native.Mathlib.Omega.{arith}
use hydr.Base.Lists.{length, take, drop, length-drop, length-append, take-append-drop}
use hydr.Base.Results.{Text}
use hydr.Base.Tests.{leb, ◌==◌, if◌then◌else◌}

-- One byte, two bytes and three bytes that are a character of white space.
unfoldable pub is_space : ℕ → Bool
is_space a = (leb 9 a && leb a 13) || (a == 32)

unfoldable pub is_wide_space : ℕ → ℕ → Bool
is_wide_space a b = (a == 0xc2) && ((b == 0x85) || (b == 0xa0))

unfoldable pub is_wider_space : ℕ → ℕ → ℕ → Bool
is_wider_space a b c =
    ((a == 0xe1) && ((b == 0x9a) && (c == 0x80)))
    || (((a == 0xe2)
          && (((b == 0x80)
                && ((leb 0x80 c && leb c 0x8a) || ((c == 0xa8) || ((c == 0xa9) || (c == 0xaf)))))
              || ((b == 0x81) && (c == 0x9f))))
        || ((a == 0xe3) && ((b == 0x80) && (c == 0x80))))

-- The number of bytes of the white space character at the front, 0 if there is none.
unfoldable pub front_width : Text → ℕ
unfolding is_space is_wide_space is_wider_space
front_width [] = 0
front_width (a ∷ []) = if is_space a then 1 else 0
front_width (a ∷ (b ∷ [])) = if is_space a then 1 else if is_wide_space a b then 2 else 0
front_width (a ∷ (b ∷ (c ∷ s))) =
    if is_space a then 1 else if is_wide_space a b then 2 else if is_wider_space a b c then 3 else 0

-- The same at the end of a text that is given from its end.
unfoldable pub back_width : Text → ℕ
unfolding is_space is_wide_space is_wider_space
back_width [] = 0
back_width (a ∷ []) = if is_space a then 1 else 0
back_width (a ∷ (b ∷ [])) = if is_space a then 1 else if is_wide_space b a then 2 else 0
back_width (a ∷ (b ∷ (c ∷ s))) =
    if is_space a then 1 else if is_wide_space b a then 2 else if is_wider_space c b a then 3 else 0

-- Each round takes a character, so that the length is fuel enough.
unfoldable pub skip : (Text → ℕ) → ℕ → Text → Text
skip width zero s = s
skip width (suc fuel) s = elim (width s) [ zero ↦ s | suc k ↦ skip width fuel (drop (suc k) s) ]

unfoldable pub trim_start : Text → Text
unfolding skip front_width
trim_start s = skip front_width (length s) s

unfoldable pub trim_end : Text → Text
unfolding skip back_width
trim_end s = reverse (skip back_width (length s) (reverse s))

unfoldable pub trim : Text → Text
unfolding trim_start trim_end
trim s = trim_end (trim_start s)

-- No white space at either end.
abbrev pub IsTrimmed : Text → Type 0
IsTrimmed s = (front_width s ≡ 0) × (back_width (reverse s) ≡ 0)

length-reverse : (xs : Text) → length (reverse xs) ≡ length xs
length-reverse [] = refl
length-reverse (x ∷ xs) =
    ap length (reverse-cons x xs)
    ∙ omega (arith, length-append (reverse xs) (x ∷ []), length-reverse xs)

-- With enough fuel nothing is left to skip.
skip-done :
    (width : Text → ℕ) (fuel : ℕ) (s : Text)
    → width [] ≡ 0
    → length s ≤ fuel
    → width (skip width fuel s) ≡ 0
unfolding skip
skip-done width zero [] e h = e
skip-done width zero (x ∷ s) e h = absurd (omega arith)
skip-done width (suc fuel) s e h =
    went (width s) refl
      (λ (k : ℕ). skip-done width fuel (drop (suc k) s) e (omega (arith, length-drop (suc k) s)))
  where
    went :
        (w : ℕ)
        → width s ≡ w
        → ((k : ℕ) → width (skip width fuel (drop (suc k) s)) ≡ 0)
        → width (elim w [ zero ↦ s | suc k ↦ skip width fuel (drop (suc k) s) ]) ≡ 0
    went zero p rest = p
    went (suc k) p rest = rest k

-- What is skipped is a front.
skip-front : (width : Text → ℕ) (fuel : ℕ) (s : Text) → (p : Text) × (p ++ skip width fuel s ≡ s)
unfolding skip
skip-front width zero s = ([], refl)
skip-front width (suc fuel) s = went (width s) (λ (k : ℕ). skip-front width fuel (drop (suc k) s))
  where
    went :
        (w : ℕ)
        → ((k : ℕ) → (p : Text) × (p ++ skip width fuel (drop (suc k) s) ≡ drop (suc k) s))
        → (p : Text) × (p ++ elim w [ zero ↦ s | suc k ↦ skip width fuel (drop (suc k) s) ] ≡ s)
    went zero rest = ([], refl)
    went (suc k) rest =
        let (p, e) = rest k in
        (
          take (suc k) s ++ p,
          append_assoc (take (suc k) s) p _
              ∙ ap (◌++◌ (take (suc k) s)) e
              ∙ take-append-drop (suc k) s,
        )

-- A front of a text without white space at the front has none there either.
front_width-front : (p q : Text) → front_width (p ++ q) ≡ 0 → front_width p ≡ 0
unfolding front_width
front_width-front [] q h = refl
front_width-front (a ∷ []) [] h = h
front_width-front (a ∷ []) (b ∷ []) h = ground (arith, h)
front_width-front (a ∷ []) (b ∷ (c ∷ q)) h = ground (arith, h)
front_width-front (a ∷ (b ∷ [])) [] h = h
front_width-front (a ∷ (b ∷ [])) (c ∷ q) h = ground (arith, h)
front_width-front (a ∷ (b ∷ (c ∷ p))) q h = h

pub trim_start-front : (s : Text) → front_width (trim_start s) ≡ 0
unfolding trim_start
trim_start-front s = skip-done front_width (length s) s (unfold front_width in refl) (omega arith)

pub trim-IsTrimmed : (s : Text) → IsTrimmed (trim s)
unfolding trim trim_end
trim-IsTrimmed s =
    let t = trim_start s in
    let rest = skip back_width (length t) (reverse t) in
    let (p, e) = skip-front back_width (length t) (reverse t) in
    let split : reverse rest ++ reverse p ≡ t =
      sym (reverse-append p rest) ∙ ap reverse e ∙ reverse-reverse t in
    (
      front_width-front (reverse rest) (reverse p) (ap front_width split ∙ trim_start-front s),
      ap back_width (reverse-reverse rest)
          ∙ skip-done back_width (length t) (reverse t) (unfold back_width in refl)
              (omega (arith, length-reverse t)),
    )
