-- ===== src/Lab/FixedString.antt =====
-- src/lab/lab/fixed_string.hpp: construction from views, widening and the views of fixed strings. The
-- buffer of a fixed_string<n> is its list of n + 2 characters; a copy past the end of an array is
-- undefined in the source and drops what is over here.
use cpp_demo_build.Prelude.{
  ℕ, zero, suc, min, ◌+◌, ◌≤◌, ◌≡◌, refl, ap, ◌<◌, sym, ◌∙◌, Bool, false, [], ◌∷◌, Bytes,
  if◌then◌else◌, leb, ltb, length, arith,
}
use cpp_demo_build.Prelude.Result.{Result, ok, err, out_of_bounds}

pub record FixedString : Type 0 where
  pub buffer : Bytes
  pub truncated : Bool

unfoldable pub take : ℕ → Bytes → Bytes
take zero s = []
take (suc n) [] = []
take (suc n) (c ∷ s) = c ∷ take n s

unfoldable zeros : ℕ → Bytes
zeros zero = []
zeros (suc n) = 0 ∷ zeros n

-- `std::copy` of characters over the front of an array.
unfoldable copy_into : Bytes → Bytes → Bytes
copy_into [] array = array
copy_into (c ∷ s) [] = []
copy_into (c ∷ s) (d ∷ array) = c ∷ copy_into s array

unfoldable size : FixedString → ℕ
size fs = elim fs.buffer [ [] ↦ 0 | c ∷ s ↦ c ]

unfoldable pub to_string_view : FixedString → Bytes
unfolding size
to_string_view fs = elim fs.buffer [ [] ↦ [] | c ∷ s ↦ take (size fs) s ]

-- `truncate_from` of a strict string, and the constructor of a truncating one.
unfoldable pub from_string_view : ℕ → Bytes → FixedString
unfolding take zeros copy_into
from_string_view n sv =
    let count = min (length sv) n in
    record {
      buffer = count ∷ copy_into (take count sv) (zeros (suc n));
      truncated = ltb n (length sv);
    }

unfoldable pub from : ℕ → Bytes → Result FixedString
unfolding from_string_view
from n sv = if leb (length sv) n then ok (from_string_view n sv) else err out_of_bounds

-- The constructor from a shorter fixed string.
unfoldable pub widen : ℕ → FixedString → FixedString
unfolding zeros copy_into
widen n other = record {
  buffer = copy_into other.buffer (zeros (suc (suc n)));
  truncated = other.truncated;
}

length-zeros : (n : ℕ) → length (zeros n) ≡ n
unfolding zeros
length-zeros zero = refl
length-zeros (suc n) = omega (arith, length-zeros n)

length-copy_into : (s array : Bytes) → length (copy_into s array) ≡ length array
unfolding copy_into
length-copy_into [] array = refl
length-copy_into (c ∷ s) [] = refl
length-copy_into (c ∷ s) (d ∷ array) = omega (arith, length-copy_into s array)

take-copy_into :
    (k : ℕ) (s array : Bytes)
    → k ≤ length s
    → k ≤ length array
    → take k (copy_into (take k s) array) ≡ take k s
unfolding take copy_into
take-copy_into zero s array h g = refl
take-copy_into (suc k) [] array h g = ground arith
take-copy_into (suc k) (c ∷ s) [] h g = ground arith
take-copy_into (suc k) (c ∷ s) (d ∷ array) h g =
    ap (λ r. c ∷ r) (take-copy_into k s array (omega arith) (omega arith))

min-suc : (a b : ℕ) → min (suc a) (suc b) ≡ suc (min a b)
min-suc a b = omega arith

min_zero : (a : ℕ) → min a 0 ≡ 0
min_zero a = omega arith

min_of_le : (a b : ℕ) → a ≤ b → min a b ≡ a
min_of_le a b h = omega arith

take-nil : (k : ℕ) → take k [] ≡ []
unfolding take
take-nil zero = refl
take-nil (suc k) = refl

take-min : (n : ℕ) (s : Bytes) → take (min (length s) n) s ≡ take n s
unfolding take
take-min zero s = ap (λ k. take k s) (min_zero (length s))
take-min (suc n) [] = take-nil (min 0 (suc n))
take-min (suc n) (c ∷ s) =
    ap (λ k. take k (c ∷ s)) (min-suc (length s) n) ∙ ap (λ r. c ∷ r) (take-min n s)

take-length : (s : Bytes) → take (length s) s ≡ s
unfolding take
take-length [] = refl
take-length (c ∷ s) = ap (λ r. c ∷ r) (take-length s)

copy_into-zeros : (a b : ℕ) → a ≤ b → copy_into (zeros a) (zeros b) ≡ zeros b
unfolding copy_into zeros
copy_into-zeros zero b h = refl
copy_into-zeros (suc a) zero h = ground arith
copy_into-zeros (suc a) (suc b) h = ap (λ r. 0 ∷ r) (copy_into-zeros a b (omega arith))

copy_into-copy_into :
    (s : Bytes) (a b : ℕ)
    → length s ≤ a
    → a ≤ b
    → copy_into (copy_into s (zeros a)) (zeros b) ≡ copy_into s (zeros b)
unfolding copy_into zeros
copy_into-copy_into [] a b h g = copy_into-zeros a b g
copy_into-copy_into (c ∷ s) zero b h g = ground arith
copy_into-copy_into (c ∷ s) (suc a) zero h g = ground arith
copy_into-copy_into (c ∷ s) (suc a) (suc b) h g =
    ap (λ r. c ∷ r) (copy_into-copy_into s a b (omega arith) (omega arith))

-- A fixed string of capacity n made from a view shows the first n characters of it, or all of it when
-- it is shorter, and its buffer has the n + 2 characters of the array.
pub from_string_view-shows :
    (n : ℕ) (sv : Bytes)
    → (to_string_view (from_string_view n sv) ≡ take n sv)
      × (length (from_string_view n sv).buffer ≡ n + 2)
unfolding to_string_view from_string_view size
from_string_view-shows n sv = (
  take-copy_into (min (length sv) n) sv (zeros (suc n)) (omega arith)
        (omega (arith, length-zeros (suc n)))
      ∙ take-min n sv,
  omega
      (arith, length-zeros (suc n), length-copy_into (take (min (length sv) n) sv) (zeros (suc n))),
)

buffer-fits :
    (n : ℕ) (sv : Bytes)
    → length sv ≤ n
    → (from_string_view n sv).buffer ≡ length sv ∷ copy_into sv (zeros (suc n))
unfolding from_string_view
buffer-fits n sv h =
    ap (λ k. k ∷ copy_into (take k sv) (zeros (suc n))) (min_of_le (length sv) n h)
    ∙ ap (λ s. length sv ∷ copy_into s (zeros (suc n))) (take-length sv)

truncated-fits : (n : ℕ) (sv : Bytes) → length sv ≤ n → (from_string_view n sv).truncated ≡ false
unfolding from_string_view
truncated-fits n sv h = ground arith

FixedString-eq : (f g : FixedString) → f.buffer ≡ g.buffer → f.truncated ≡ g.truncated → f ≡ g
FixedString-eq f g h k = cc

-- Widening a fixed string that holds a text gives the very fixed string, character by character, that
-- the wider type makes from the text.
pub widen-from_string_view :
    (m n : ℕ) (sv : Bytes)
    → length sv ≤ m
    → m ≤ n
    → widen n (from_string_view m sv) ≡ from_string_view n sv
unfolding widen zeros copy_into
widen-from_string_view m n sv h g =
    FixedString-eq (widen n (from_string_view m sv)) (from_string_view n sv) buffers flags
  where
    buffers : (widen n (from_string_view m sv)).buffer ≡ (from_string_view n sv).buffer
    buffers =
        ap (λ b. copy_into b (zeros (suc (suc n)))) (buffer-fits m sv h)
        ∙ ap (λ r. length sv ∷ r)
            (copy_into-copy_into sv (suc m) (suc n) (omega arith) (omega arith))
        ∙ sym (buffer-fits n sv (omega arith))

    flags : (widen n (from_string_view m sv)).truncated ≡ (from_string_view n sv).truncated
    flags = truncated-fits m sv h ∙ sym (truncated-fits n sv (omega arith))

-- The checked construction gives a fixed string that shows the whole text when it fits, and an error
-- when it does not.
pub from_lem :
    (n : ℕ) (sv : Bytes)
    → ((length sv ≤ n) → (fs : FixedString) × (from n sv ≡ ok fs) × (to_string_view fs ≡ sv))
      × ((n < length sv) → from n sv ≡ err out_of_bounds)
unfolding from
from_lem n sv = (fits, λ h. ground arith)
  where
    fits : (length sv ≤ n) → (fs : FixedString) × (from n sv ≡ ok fs) × (to_string_view fs ≡ sv)
    fits h = (
      from_string_view n sv,
      ground arith,
      (from_string_view-shows n sv).0
          ∙ sym (take-min n sv)
          ∙ ap (λ k. take k sv) (min_of_le (length sv) n h)
          ∙ take-length sv,
    )
