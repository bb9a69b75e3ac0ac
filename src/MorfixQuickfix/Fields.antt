-- ===== src/MorfixQuickfix/Fields.antt =====
-- src/morfix_quickfix/src/codecs.cpp, the helpers: fields of a FIX message set and read by type.
use cpp_demo_build.Prelude.{
  ℕ, ◌^◌, ◌<◌, ◌≤◌, ◌≡◌, ◌≢◌, refl, Option, none, some, [], ◌∷◌, Bytes, length, leb, u64_mod,
  if◌then◌else◌, arith, ◌∙◌, ap,
}
use mathlib.Core.List.{cons-ne-nil}
use cpp_demo_build.Prelude.Result.{Result, ok, err, invalid_argument, out_of_bounds, ◌>>=◌}
use cpp_demo_build.Lab.Charconv.{Fmt, from_chars, from_chars-format_uint}
use cpp_demo_build.QuickfixFix.Message.{Message, set, get}
use cpp_demo_build.Ospec.Fields.{FieldSpec}

-- `as_field_value` of an integer and `set_field`; a character and a text below.
module _ (fmt : Fmt) where
  unfoldable pub set_uint : Message → FieldSpec → ℕ → Message
  set_uint m f n = set m f.number (fmt.format_uint n)

  unfoldable pub set_text : Message → FieldSpec → Bytes → Message
  set_text m f s = set m f.number (fmt.format_text s)

  unfoldable pub set_optional_uint : Message → FieldSpec → Option ℕ → Message
  set_optional_uint m f none = m
  set_optional_uint m f (some n) = set_uint m f n

-- `std::string(1, value)`
unfoldable pub set_char : Message → FieldSpec → ℕ → Message
set_char m f c = set m f.number (c ∷ [])

required_view : Option Bytes → Result Bytes
required_view none = err invalid_argument
required_view (some []) = err invalid_argument
required_view (some (c ∷ s)) = ok (c ∷ s)

unfoldable pub get_required_view : Message → FieldSpec → Result Bytes
unfolding required_view
get_required_view m f = required_view (get m f.number)

-- `get_required<T>` for a strong type over `std::uint64_t`, or for `std::uint16_t`.
unfoldable pub get_required_uint : ℕ → Message → FieldSpec → Result ℕ
unfolding get_required_view
get_required_uint limit m f = get_required_view m f >>= from_chars limit

-- `fixed_string<N>::from`
unfoldable pub fixed_string_from : ℕ → Bytes → Result Bytes
fixed_string_from n s = if leb (length s) n then ok s else err out_of_bounds

-- `get_required<T>` for a strong type over a fixed string.
unfoldable pub get_required_fixed : ℕ → Message → FieldSpec → Result Bytes
unfolding get_required_view fixed_string_from
get_required_fixed n m f = get_required_view m f >>= fixed_string_from n

one_character : Bytes → Result ℕ
one_character (c ∷ []) = ok c
one_character _ = err invalid_argument

unfoldable pub get_required_char : Message → FieldSpec → Result ℕ
unfolding get_required_view one_character
get_required_char m f = get_required_view m f >>= one_character

-- `get_optional<T>` from `get_required<T>`.
unfoldable pub get_optional :
    (Message → FieldSpec → Result ℕ) → Message → FieldSpec → Result (Option ℕ)
get_optional required m f = elim (get m f.number) [
  | none ↦ ok none
  | some v ↦ (do value ← required m f; ok (some value))
]

unfoldable pub get_optional_text : Message → FieldSpec → Result (Option Bytes)
unfolding get_required_view
get_optional_text m f = elim (get m f.number) [
  | none ↦ ok none
  | some v ↦ (do value ← get_required_view m f; ok (some value))
]

abbrev pub u16_mod : ℕ
u16_mod = 2 ^ 16

required_view-ne_nil : (s : Bytes) → s ≢ [] → required_view (some s) ≡ ok s
unfolding required_view
required_view-ne_nil [] h = absurd (h refl)
required_view-ne_nil (c ∷ s) h = refl

-- An optional value in the range of `std::uint64_t`.
abbrev pub FitsOption : Option ℕ → Type 0
FitsOption none = Unit {0}
FitsOption (some n) = n < u64_mod

get_required_view-some :
    (m : Message) (f : FieldSpec) (s : Bytes)
    → get m f.number ≡ some s
    → s ≢ []
    → get_required_view m f ≡ ok s
unfolding get_required_view
get_required_view-some m f s e h = rw e (required_view-ne_nil s h)

-- What the getters see of a field that holds a printed value.
module _ (fmt : Fmt) (m : Message) (f : FieldSpec) where
  pub get_required_uint-printed :
      (limit n : ℕ)
      → get m f.number ≡ some (fmt.format_uint n)
      → n < limit
      → get_required_uint limit m f ≡ ok n
  unfolding get_required_uint
  get_required_uint-printed limit n e h =
      rw (e, required_view-ne_nil (fmt.format_uint n) (fmt.format_uint_some n))
        (from_chars-format_uint fmt limit n h)

  pub get_required_fixed-printed :
      (n : ℕ) (s : Bytes)
      → get m f.number ≡ some (fmt.format_text s)
      → s ≢ []
      → length s ≤ n
      → get_required_fixed n m f ≡ ok s
  unfolding get_required_fixed
  get_required_fixed-printed n s e occupied h =
      rw (e, fmt.format_text_same s, required_view-ne_nil s occupied) (ground arith)

  pub get_optional-printed :
      (o : Option ℕ)
      → get m f.number ≡ elim o [ none ↦ none | some n ↦ some (fmt.format_uint n) ]
      → FitsOption o
      → get_optional (get_required_uint u64_mod) m f ≡ ok o
  unfolding get_optional
  get_optional-printed none e h = rw (e, get_optional) refl
  get_optional-printed (some n) e h =
      rw (e, get_optional) (rw (get_required_uint-printed u64_mod n e h) refl)

  pub get_optional_text-printed :
      (s : Bytes)
      → get m f.number ≡ elim s [ [] ↦ none | c ∷ t ↦ some (fmt.format_text (c ∷ t)) ]
      → get_optional_text m f ≡ ok (elim s [ [] ↦ none | c ∷ t ↦ some (c ∷ t) ])
  unfolding get_optional_text
  get_optional_text-printed [] e = rw (e, get_optional_text) refl
  get_optional_text-printed (c ∷ t) e =
      let e' = e ∙ ap some (fmt.format_text_same (c ∷ t)) in
      rw (e', get_required_view-some m f (c ∷ t) e' (cons-ne-nil c t), get_optional_text) refl

-- And of a field that holds one character.
pub get_required_char-set :
    (m : Message) (f : FieldSpec) (c : ℕ)
    → get m f.number ≡ some (c ∷ [])
    → get_required_char m f ≡ ok c
unfolding get_required_char
get_required_char-set m f c e = rw e refl
