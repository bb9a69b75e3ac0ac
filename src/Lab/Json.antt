-- ===== src/Lab/Json.antt =====
-- src/lab/lab/json.hpp: what the program takes of nlohmann::json, and the conversions that the file adds
-- to it. The library is a parameter: a document is a value of an abstract type, and a call that
-- fails throws.
pub mod Fields
pub mod Writable
use cpp_demo_build.Prelude.{
  ℕ, ◌<◌, ◌≡◌, Bool, Option, none, some, List, [], ◌∷◌, Bytes, All, u64_mod, eqb, leb, length,
  codes, if◌then◌else◌,
}
use cpp_demo_build.Prelude.Throws.{Throws, value, threw, ◌>>=◌}

-- The members of an object by their names; of two with one name the first counts.
abbrev pub member {ℓ} : {A : Type ℓ} → Bytes → List (Bytes × A) → Option A
member key [] = none
member key ((name, a) ∷ rest) = if eqb key name then some a else member key rest

abbrev pub IsAscii : Bytes → Type 0
IsAscii s = All (λ c. c < 128) s

pub record Json : Type 1 where
  pub Value : Type 0
  -- `value{n}`, `value{text}`, `value{nullptr}` and the initializer list of pairs.
  pub of_number : ℕ → Value
  pub of_string : Bytes → Value
  pub null : Value
  pub object : List (Bytes × Value) → Value
  -- `at(key)`, `find(key)`, `get<std::uint64_t>()`, `get<std::string>()` and `is_null()`.
  pub at : Value → Bytes → Throws Value
  pub find : Value → Bytes → Option Value
  pub get_number : Value → Throws ℕ
  pub get_string : Value → Throws Bytes
  pub is_null : Value → Bool
  -- `value::parse(text)` and `dump(-1, ' ', false, error_handler_t::replace)`.
  pub parse : Bytes → Throws Value
  pub dump : Value → Bytes
  -- The documents whose texts are ASCII; `dump` replaces what is not UTF-8.
  pub IsWritable : Value → Type 0
  pub number_writable : (n : ℕ) → IsWritable (of_number n)
  pub string_writable : (s : Bytes) → IsAscii s → IsWritable (of_string s)
  pub null_writable : IsWritable null
  pub object_writable :
      (fields : List (Bytes × Value))
      → All (λ (f : Bytes × Value). IsAscii f.0 × IsWritable f.1) fields
      → IsWritable (object fields)
  pub find-object :
      (fields : List (Bytes × Value)) (key : Bytes) → find (object fields) key ≡ member key fields
  pub at-object :
      (fields : List (Bytes × Value)) (key : Bytes) (v : Value)
      → member key fields ≡ some v
      → at (object fields) key ≡ value v
  pub get_number-of_number : (n : ℕ) → n < u64_mod → get_number (of_number n) ≡ value n
  pub get_string-of_string : (s : Bytes) → get_string (of_string s) ≡ value s
  pub parse-dump : (v : Value) → IsWritable v → parse (dump v) ≡ value v
  pub dump_object :
      (fields : List (Bytes × Value)) → (rest : Bytes) × (dump (object fields) ≡ b'{' ∷ rest)

module _ (j : Json) where
  -- `from_json` of a strict fixed string.
  unfoldable pub get_fixed : ℕ → j.Value → Throws Bytes
  get_fixed n from = do
    s ← j.get_string from
    if leb (length s) n then value s else threw (codes "fixed_string out of bounds")

  -- `to_json` of an optional.
  unfoldable pub of_optional {ℓ} : {A : Type ℓ} → (A → j.Value) → Option A → j.Value
  of_optional to_json none = j.null
  of_optional to_json (some a) = to_json a
