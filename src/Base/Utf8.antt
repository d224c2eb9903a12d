-- ===== src/Base/Utf8.antt =====
-- What the code relies on of Rust's `String`: `String::from_utf8_lossy` makes a text of any bytes, and
-- leaves the bytes of a text as they are. The standard library is not modelled further.
use hydr.Base.{ℕ, ◌<◌, ◌≡◌, refl, List, [], ◌∷◌, All, ap₂, ltb, if◌then◌else◌, arith, map}
use hydr.Varint.Bytes.{IsByte}

pub record Utf8 : Type 1 where
  pub IsText : List ℕ → Type 0
  pub from_utf8_lossy : List ℕ → List ℕ
  pub lossy-IsText : (bs : List ℕ) → IsText (from_utf8_lossy bs)
  pub lossy_text : (bs : List ℕ) → IsText bs → from_utf8_lossy bs ≡ bs
  pub text-IsByte : (bs : List ℕ) → IsText bs → All IsByte bs

-- The laws hold of texts restricted to ASCII, with a question mark for any other byte.
abbrev pub IsAscii : List ℕ → Type 0
IsAscii = All (λ b. b < 128)

abbrev ascii_byte : ℕ → ℕ
ascii_byte b = if ltb b 128 then b else 63

abbrev pub ascii_lossy : List ℕ → List ℕ
ascii_lossy = map ascii_byte

pub ascii_lossy-IsAscii : (bs : List ℕ) → IsAscii (ascii_lossy bs)
ascii_lossy-IsAscii [] = tt
ascii_lossy-IsAscii (b ∷ bs) = (ground arith, ascii_lossy-IsAscii bs)

pub ascii_lossy_text : (bs : List ℕ) → IsAscii bs → ascii_lossy bs ≡ bs
ascii_lossy_text [] h = refl
ascii_lossy_text (b ∷ bs) h = ap₂ ◌∷◌ (ground (arith, h.0)) (ascii_lossy_text bs h.1)

pub IsAscii-IsByte : (bs : List ℕ) → IsAscii bs → All IsByte bs
IsAscii-IsByte [] h = tt
IsAscii-IsByte (b ∷ bs) h = (omega arith, IsAscii-IsByte bs h.1)

abbrev pub ascii : Utf8
ascii = record {
  IsText = IsAscii;
  from_utf8_lossy = ascii_lossy;
  lossy-IsText = ascii_lossy-IsAscii;
  lossy_text = ascii_lossy_text;
  text-IsByte = IsAscii-IsByte;
}
