-- ===== src/Lab/Charconv.antt =====
-- src/lab/lab/charconv.hpp over an unsigned integer of some width, with the exact match, and the
-- printing by fmt of the values that it reads back. `std::from_chars` reads the longest run of
-- decimal digits and fails on an empty one or on a value that does not fit.
use cpp_demo_build.Prelude.{
  ℕ, ◌+◌, ◌-◌, ◌*◌, ◌<◌, ◌≤◌, ◌≡◌, ◌≢◌, refl, Bool, ◌&&◌, [], ◌∷◌, Bytes, leb, All, if◌then◌else◌,
  arith, is_empty,
}
use cpp_demo_build.Prelude.Result.{Result, ok, err, invalid_argument}

abbrev pub is_digit : ℕ → Bool
is_digit c = leb b'0' c && leb c b'9'

abbrev pub IsDigit : ℕ → Type 0
IsDigit c = (b'0' ≤ c) × (c ≤ b'9')

-- The number that the leading digits spell behind `n`, and what follows them.
pub scan : ℕ → Bytes → ℕ × Bytes
scan n [] = (n, [])
scan n (c ∷ s) = if is_digit c then scan (n * 10 + (c - b'0')) s else (n, c ∷ s)

-- The checks on the result of `std::from_chars`: out of range, then unmatched characters.
checked : ℕ → ℕ × Bytes → Result ℕ
checked limit (value, rest) =
    if leb limit value
    then err invalid_argument
    else if is_empty rest
    then ok value
    else err invalid_argument

-- For the values below `limit`.
unfoldable pub from_chars : ℕ → Bytes → Result ℕ
unfolding scan checked
from_chars limit [] = err invalid_argument
from_chars limit (c ∷ s) =
    if is_digit c then checked limit (scan 0 (c ∷ s)) else err invalid_argument

-- The value of a string of digits behind `n`.
abbrev pub decimal : ℕ → Bytes → ℕ
decimal n [] = n
decimal n (c ∷ s) = decimal (n * 10 + (c - b'0')) s

-- fmt: an integer is printed in decimal digits, a text as it is.
pub record Fmt : Type 0 where
  pub format_uint : ℕ → Bytes
  pub format_uint_digits : (n : ℕ) → All IsDigit (format_uint n)
  pub format_uint_value : (n : ℕ) → decimal 0 (format_uint n) ≡ n
  pub format_uint_some : (n : ℕ) → format_uint n ≢ []
  pub format_text : Bytes → Bytes
  pub format_text_same : (s : Bytes) → format_text s ≡ s

scan-digits : (n : ℕ) (s : Bytes) → All IsDigit s → scan n s ≡ (decimal n s, [])
unfolding scan
scan-digits n [] h = refl
scan-digits n (c ∷ s) h = ground (arith, scan-digits (n * 10 + (c - b'0')) s)

-- Digits are read as their value, if that fits.
pub from_chars-digits :
    (limit : ℕ) (s : Bytes)
    → s ≢ []
    → All IsDigit s
    → decimal 0 s < limit
    → from_chars limit s ≡ ok (decimal 0 s)
unfolding from_chars
from_chars-digits limit [] occupied h fits = absurd (occupied refl)
from_chars-digits limit (c ∷ s) occupied h fits = ground (arith, scan-digits 0 (c ∷ s) h)

module _ (fmt : Fmt) where
  -- A number below the limit of the type, printed in decimal, is read back.
  pub from_chars-format_uint :
      (limit n : ℕ) → n < limit → from_chars limit (fmt.format_uint n) ≡ ok n
  from_chars-format_uint limit n h = rw (
    from_chars-digits limit (fmt.format_uint n) (fmt.format_uint_some n) (fmt.format_uint_digits n)
        (rw (fmt.format_uint_value n) h),
    fmt.format_uint_value n,
  )
