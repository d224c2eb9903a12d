-- ===== src/Base/Results.antt =====
-- Results of the fallible functions: `hydr_core::Result` of crates/hydr-core/src/error.rs, with a
-- third outcome for the Rust panic of an index or a slice out of range, and the slice operations.
-- A text (Rust `String`, `&str`) is the list of its UTF-8 bytes.
use Prim.Native.Nat.{ℕ, ◌+◌, ◌-◌, ◌≤◌, ◌<◌}
use Prim.Native.String.{String}
use Prim.Native.Char.{code}
use mathlib.Core.Path.{◌≡◌, ◌∙◌, ap, refl}
use mathlib.Core.Logic.{◌≢◌, ◌⊎◌, inl, inr}
use mathlib.Core.List.{List, [], ◌∷◌, ◌++◌}
use mathlib.Core.Option.{Option, none, some}
use mathlib.Core.Bool.{◌&&◌}
use native.Mathlib.Omega.{arith}
use hydr.Base.Tests.{leb, if◌then◌else◌, le→leb}
use hydr.Base.Lists.{length, take, drop, get_elem?, length-append, take-append, drop-append}
use hydr.Base.Lists.{get_elem?-lt, get_elem?-append}

abbrev pub Text : Type 0
Text = List ℕ

-- The bytes of an ASCII literal.
abbrev pub text : String → Text
text String.[] = []
text (String.◌∷◌ c s) = code c ∷ text s

-- `Io` keeps the message of the `std::io::Error`.
pub data Error : Type 0 where
  io : Text → Error
  unexpected_eof : Error
  invalid_data : Text → Error
  message : Text → Error
  auth_failed : Error
  stream_closed : Error
  unsupported : Error

-- `Display for Error`
unfoldable pub to_string : Error → Text
to_string (io e) = text "io error: " ++ e
to_string unexpected_eof = text "unexpected end of buffer"
to_string (invalid_data m) = text "invalid data: " ++ m
to_string (message m) = m
to_string auth_failed = text "authentication failed"
to_string stream_closed = text "stream closed"
to_string unsupported = text "unsupported"

pub data Result {ℓ} (A : Type ℓ) : Type ℓ where
  ok : A → Result A
  err : Error → Result A
  panic : Result A

infixl 5 ◌>>=◌ ◌>>◌
abbrev pub ◌>>=◌ {ℓ κ} : {A : Type ℓ} {B : Type κ} → Result A → (A → Result B) → Result B
ok a >>= f = f a
err e >>= f = err e
panic >>= f = panic

abbrev pub ◌>>◌ {ℓ} : {B : Type ℓ} → Result (Unit {0}) → Result B → Result B
m >> k = m >>= λ _. k

-- `opt.ok_or(e)?`
abbrev pub ok_or {ℓ} : {A : Type ℓ} → Option A → Error → Result A
ok_or none e = err e
ok_or (some a) e = ok a

-- `buf[i]`
unfoldable pub index : List ℕ → ℕ → Result ℕ
index buf i = elim (get_elem? buf i) [ none ↦ panic | some b ↦ ok b ]

-- `&buf[lo..hi]`
unfoldable pub slice : List ℕ → ℕ → ℕ → Result (List ℕ)
slice buf lo hi =
    if leb lo hi && leb hi (length buf) then ok (take (hi - lo) (drop lo buf)) else panic

-- `&buf[lo..]`
unfoldable pub slice_from : List ℕ → ℕ → Result (List ℕ)
slice_from buf lo = if leb lo (length buf) then ok (drop lo buf) else panic

-- A result is a value, or it makes a chain fail.
pub Result-cases {ℓ} :
    {A : Type ℓ} (m : Result A)
    → ((a : A) × (m ≡ ok a)) ⊎ ((B : Type 0) (f : A → Result B) (b : B) → ¬ (m >>= f ≡ ok b))
Result-cases (ok a) = inl (a, refl)
Result-cases (err e) = inr (λ B f b p. cc)
Result-cases panic = inr (λ B f b p. cc)

pub ok-injective {ℓ} : {A : Type ℓ} {a b : A} → ok a ≡ ok b → a ≡ b
ok-injective {A = A} {a = a} p = ap value p
  where
    value : Result A → A
    value (ok x) = x
    value (err e) = a
    value panic = a

-- What holds of the value on success; an error is allowed, a panic is not.
abbrev pub Returns {ℓ} : {A : Type ℓ} → (A → Type 0) → Result A → Type 0
Returns P (ok a) = P a
Returns P (err e) = Unit {0}
Returns P panic = ⊥

pub Returns->>= {ℓ κ} :
    {A : Type ℓ} {B : Type κ} (P : A → Type 0) (Q : B → Type 0) (m : Result A) (f : A → Result B)
    → Returns P m
    → ((a : A) → P a → Returns Q (f a))
    → Returns Q (m >>= f)
Returns->>= P Q (ok a) f h k = k a h
Returns->>= P Q (err e) f h k = tt
Returns->>= P Q panic f h k = h

pub Returns-eq {ℓ} :
    {A : Type ℓ} (P : A → Type 0) (m : Result A) (a : A) → Returns P m → m ≡ ok a → P a
Returns-eq P m a h e = let k : Returns P (ok a) = rw e at h in k

pub Returns-ne-panic {ℓ} : {A : Type ℓ} (P : A → Type 0) (m : Result A) → Returns P m → m ≢ panic
Returns-ne-panic P (ok a) h = λ e. cc
Returns-ne-panic P (err e) h = λ p. cc
Returns-ne-panic P panic h = absurd h

-- What holds of the value, if there is one.
abbrev pub OnOk {ℓ} : {A : Type ℓ} → (A → Type 0) → Result A → Type 0
OnOk P (ok a) = P a
OnOk P (err e) = Unit {0}
OnOk P panic = Unit {0}

pub OnOk->>= {ℓ κ} :
    {A : Type ℓ} {B : Type κ} (P : B → Type 0) (m : Result A) (f : A → Result B)
    → ((a : A) → m ≡ ok a → OnOk P (f a))
    → OnOk P (m >>= f)
OnOk->>= P (ok a) f h = h a refl
OnOk->>= P (err e) f h = tt
OnOk->>= P panic f h = tt

pub OnOk-eq {ℓ} : {A : Type ℓ} (P : A → Type 0) (m : Result A) (a : A) → OnOk P m → m ≡ ok a → P a
OnOk-eq P m a h e = let k : OnOk P (ok a) = rw e at h in k

pub OnOk-weaken {ℓ} :
    {A : Type ℓ} (P Q : A → Type 0) (m : Result A) → ((a : A) → P a → Q a) → OnOk P m → OnOk Q m
OnOk-weaken P Q (ok a) f h = f a h
OnOk-weaken P Q (err e) f h = tt
OnOk-weaken P Q panic f h = tt

pub slice_in_range :
    (buf : List ℕ) (lo hi : ℕ)
    → lo ≤ hi
    → hi ≤ length buf
    → slice buf lo hi ≡ ok (take (hi - lo) (drop lo buf))
unfolding slice
slice_in_range buf lo hi h k = rw (le→leb lo hi h, le→leb hi (length buf) k)

pub slice_from_in_range :
    (buf : List ℕ) (lo : ℕ) → lo ≤ length buf → slice_from buf lo ≡ ok (drop lo buf)
unfolding slice_from
slice_from_in_range buf lo h = rw (le→leb lo (length buf) h)

pub index_in_range :
    (buf : List ℕ) (i : ℕ)
    → i < length buf
    → (b : ℕ) × (get_elem? buf i ≡ some b) × (index buf i ≡ ok b)
unfolding index
index_in_range buf i h = let (b, e) = get_elem?-lt buf i h in (b, e, rw (e, index))

-- The part of a buffer that follows a known prefix.
pub slice_middle :
    (front middle back : List ℕ)
    → slice (front ++ (middle ++ back)) (length front) (length front + length middle) ≡ ok middle
slice_middle front middle back =
    let fits : length front + length middle ≤ length (front ++ (middle ++ back)) =
      omega (arith, length-append front (middle ++ back), length-append middle back) in
    let width : length front + length middle - length front ≡ length middle = omega arith in
    slice_in_range _ _ _ (omega arith) fits
    ∙ rw (width, drop-append front (middle ++ back), take-append middle back)

pub slice_from_append : (front back : List ℕ) → slice_from (front ++ back) (length front) ≡ ok back
slice_from_append front back =
    slice_from_in_range (front ++ back) (length front) (omega (arith, length-append front back))
    ∙ rw (drop-append front back)

pub index_append :
    (front : List ℕ) (b : ℕ) (back : List ℕ) → index (front ++ (b ∷ back)) (length front) ≡ ok b
unfolding index
index_append front b back = rw (get_elem?-append front (b ∷ back), index)
