-- ===== src/Prelude/Tests.antt =====
-- Boolean tests on numbers and on byte strings, the conditional and case lemmas.
use Prim.Native.Nat.{ℕ, ◌<◌, compare, Ordering}
use mathlib.Core.Path.{◌≡◌, refl}
use mathlib.Core.Logic.{◌↔◌, ◌⊎◌, inl, inr}
use mathlib.Core.Bool.{Bool, true, false, ◌&&◌}
use mathlib.Core.Option.{Option, none, some}
use mathlib.Core.List.{List, [], ◌∷◌}
use native.Mathlib.Omega.{arith}

abbrev pub ltb : ℕ → ℕ → Bool
ltb a b = elim (compare a b) [ Ordering.lt ↦ true | _ ↦ false ]

abbrev pub leb : ℕ → ℕ → Bool
leb a b = elim (compare a b) [ Ordering.gt ↦ false | _ ↦ true ]

infix 50 ◌==◌
abbrev pub ◌==◌ : ℕ → ℕ → Bool
a == b = elim (compare a b) [ Ordering.eq ↦ true | _ ↦ false ]

infix 1 if◌then◌else◌
abbrev pub if◌then◌else◌ {ℓ} : {A : Type ℓ} → Bool → A → A → A
if true then x else y = x
if false then x else y = y

pub ltb→lt : (a b : ℕ) → ltb a b ≡ true → a < b
ltb→lt a b h = ground arith

pub lt→ltb : (a b : ℕ) → a < b → ltb a b ≡ true
lt→ltb a b h = ground arith

pub ==_iff : (a b : ℕ) → ((a == b) ≡ true) ↔ (a ≡ b)
==_iff a b = ground arith

pub ==_refl : (a : ℕ) → (a == a) ≡ true
==_refl a = ground arith

-- To split on a computed value and keep the equation.
pub Bool-cases : (b : Bool) → (b ≡ true) ⊎ (b ≡ false)
Bool-cases true = inl refl
Bool-cases false = inr refl

pub Option-cases {ℓ} : {A : Type ℓ} (o : Option A) → (o ≡ none) ⊎ ((a : A) × (o ≡ some a))
Option-cases none = inl refl
Option-cases (some a) = inr (a, refl)

-- A byte string (`std::string`, `std::string_view`, the contents of a `lab::fixed_string`).
abbrev pub Bytes : Type 0
Bytes = List ℕ

-- Equality of byte strings; shut, with `eqb_iff` for its proofs.
unfoldable pub eqb : Bytes → Bytes → Bool
eqb [] [] = true
eqb [] (_ ∷ _) = false
eqb (_ ∷ _) [] = false
eqb (a ∷ s) (b ∷ t) = a == b && eqb s t

pub eqb_refl : (s : Bytes) → eqb s s ≡ true
unfolding eqb
eqb_refl [] = refl
eqb_refl (a ∷ s) = ground (arith, eqb_refl s)

pub eq_of_eqb : (s t : Bytes) → eqb s t ≡ true → s ≡ t
unfolding eqb
eq_of_eqb [] [] h = refl
eq_of_eqb [] (b ∷ t) h = cc
eq_of_eqb (a ∷ s) [] h = cc
eq_of_eqb (a ∷ s) (b ∷ t) h = ground (arith, eq_of_eqb s t)
