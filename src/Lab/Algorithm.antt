-- ===== src/Lab/Algorithm.antt =====
-- src/lab/lab/algorithm.hpp: trimming of string views.
use cpp_demo_build.Prelude.{
  ◌≡◌, refl, Bool, true, ◌&&◌, ◌||◌, ◌==◌, ◌↔◌, [], ◌∷◌, Bytes, if◌then◌else◌, is_empty, All,
  Bool-cases, inl, inr, arith, ℕ, ap, ◌∙◌, sym,
}

-- `ascii_whitespace`
abbrev pub is_whitespace : ℕ → Bool
is_whitespace c = c == b' ' || (c == b'\t' || (c == b'\r' || c == b'\n'))

abbrev pub IsBlank : Bytes → Type 0
IsBlank s = All (λ c. is_whitespace c ≡ true) s

unfoldable pub ltrim : Bytes → Bytes
ltrim [] = []
ltrim (c ∷ s) = if is_whitespace c then ltrim s else c ∷ s

-- Up to the last character that is not whitespace.
unfoldable pub rtrim : Bytes → Bytes
rtrim [] = []
rtrim (c ∷ s) = let rest = rtrim s in if is_empty rest && is_whitespace c then [] else c ∷ rest

unfoldable pub trim : Bytes → Bytes
trim s = rtrim (ltrim s)

ltrim-trim : (s : Bytes) → ltrim (rtrim (ltrim s)) ≡ rtrim (ltrim s)
unfolding ltrim rtrim
ltrim-trim [] = refl
ltrim-trim (c ∷ s) = ground (arith, ltrim-trim s)

rtrim-rtrim : (s : Bytes) → rtrim (rtrim s) ≡ rtrim s
unfolding rtrim
rtrim-rtrim [] = refl
rtrim-rtrim (c ∷ s) = ground (arith, rtrim-rtrim s)

-- Trimming a trimmed view changes nothing.
pub trim-trim : (s : Bytes) → trim (trim s) ≡ trim s
unfolding trim
trim-trim s = ap rtrim (ltrim-trim s) ∙ rtrim-rtrim (ltrim s)

rtrim-IsBlank : (s : Bytes) → rtrim s ≡ [] → IsBlank s
unfolding rtrim
rtrim-IsBlank [] h = tt
rtrim-IsBlank (c ∷ s) h = (here, rtrim-IsBlank s there)
  where
    here : is_whitespace c ≡ true
    here = ground arith

    there : rtrim s ≡ []
    there = ground arith

IsBlank-trim : (s : Bytes) → trim s ≡ [] → IsBlank s
unfolding trim ltrim
IsBlank-trim [] h = tt
IsBlank-trim (c ∷ s) h = elim (Bool-cases (is_whitespace c)) [
  | inl e ↦ (e, IsBlank-trim s (sym (ap (λ b. rtrim (if b then ltrim s else c ∷ s)) e) ∙ h))
  | inr e ↦ rtrim-IsBlank (c ∷ s) (sym (ap (λ b. rtrim (if b then ltrim s else c ∷ s)) e) ∙ h)
]

trim_of_blank : (s : Bytes) → IsBlank s → trim s ≡ []
unfolding trim ltrim rtrim
trim_of_blank [] h = refl
trim_of_blank (c ∷ s) h = rw (h.0) (trim_of_blank s h.1)

-- A view trims to nothing exactly when it is all whitespace.
pub trim-IsBlank : (s : Bytes) → (trim s ≡ []) ↔ IsBlank s
trim-IsBlank s = (IsBlank-trim s, trim_of_blank s)
