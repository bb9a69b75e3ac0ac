-- ===== src/Lab/Json/Fields.antt =====
-- src/lab/lab/json.hpp: the reading of described structs. The iteration over the items of an object is
-- one more parameter.
use cpp_demo_build.Prelude.{
  ◌≡◌, refl, ◌||◌, Bool, true, false, Option, none, some, List, [], ◌∷◌, ◌++◌, Bytes, All, eqb,
  codes, ap, ◌∙◌, if◌then◌else◌,
}
use cpp_demo_build.Prelude.Throws.{Throws, value, threw, ◌>>=◌}
use cpp_demo_build.Lab.Json.{Json, member}

-- The names that `items()` goes through, or none where `is_object()` is false.
pub record JsonItems (j : Json) : Type 1 where
  pub items : j.Value → Option (List Bytes)
  pub items-object :
      (fields : List (Bytes × j.Value))
      → (names : List Bytes) × (items (j.object fields) ≡ some names)
        × ((P : Bytes → Type 0) → All (λ (f : Bytes × j.Value). P f.0) fields → All P names)

-- `has_described_field`
unfoldable pub has_described_field : List Bytes → Bytes → Bool
has_described_field [] key = false
has_described_field (name ∷ rest) key = eqb key name || has_described_field rest key

unfoldable pub reject_names : List Bytes → List Bytes → Throws (Unit {0})
reject_names described [] = value tt
reject_names described (key ∷ rest) =
    if has_described_field described key
    then reject_names described rest
    else threw (codes "unknown json field '" ++ key ++ codes "'")

module _ (j : Json) where
  unfoldable pub read_field : {A : Type 0} → (j.Value → Throws A) → j.Value → Bytes → Throws A
  read_field get_to json_object key = j.at json_object key >>= get_to

  -- Of a defaulted field, or after a test that the object contains the key.
  unfoldable pub read_field_or :
      {A : Type 0} → (j.Value → Throws A) → j.Value → Bytes → A → Throws A
  read_field_or get_to json_object key field = elim (j.find json_object key) [
    | some it ↦ get_to it
    | none ↦ value field
  ]

  unfoldable pub read_type : j.Value → Throws Bytes
  unfolding read_field
  read_type json_object = read_field j.get_string json_object (codes "type")

  unfoldable pub reject_unknown_fields : JsonItems j → List Bytes → j.Value → Throws (Unit {0})
  reject_unknown_fields i described json_object = elim (i.items json_object) [
    | none ↦ threw (codes "expected json object")
    | some names ↦ reject_names described names
  ]

  pub read_field-object :
      {A : Type 0} (get_to : j.Value → Throws A) (fields : List (Bytes × j.Value)) (key : Bytes)
      (v : j.Value) (a : A)
      → member key fields ≡ some v
      → get_to v ≡ value a
      → read_field get_to (j.object fields) key ≡ value a
  unfolding read_field
  read_field-object get_to fields key v a h k =
      ap (λ o. o >>= get_to) (j.at-object fields key v h) ∙ k

  pub read_field_or-object :
      {A : Type 0} (get_to : j.Value → Throws A) (fields : List (Bytes × j.Value)) (key : Bytes)
      (v : j.Value) (a field : A)
      → member key fields ≡ some v
      → get_to v ≡ value a
      → read_field_or get_to (j.object fields) key field ≡ value a
  unfolding read_field_or
  read_field_or-object get_to fields key v a field h k =
      rw (j.find-object fields key, h, read_field_or) k

  pub read_type-object :
      (fields : List (Bytes × j.Value)) (type : Bytes)
      → member (codes "type") fields ≡ some (j.of_string type)
      → read_type (j.object fields) ≡ value type
  unfolding read_type
  read_type-object fields type h =
      read_field-object j.get_string fields (codes "type") (j.of_string type) type h
        (j.get_string-of_string type)

  reject_names-All :
      (described names : List Bytes)
      → All (λ key. has_described_field described key ≡ true) names
      → reject_names described names ≡ value tt
  unfolding reject_names
  reject_names-All described [] h = refl
  reject_names-All described (key ∷ rest) h = rw h.0 (reject_names-All described rest h.1)

  pub reject_unknown_fields-object :
      (i : JsonItems j) (described : List Bytes) (fields : List (Bytes × j.Value))
      → All (λ (f : Bytes × j.Value). has_described_field described f.0 ≡ true) fields
      → reject_unknown_fields i described (j.object fields) ≡ value tt
  unfolding reject_unknown_fields
  reject_unknown_fields-object i described fields h =
      let (names, listed, every) = i.items-object fields in
      rw (listed, reject_unknown_fields)
        (reject_names-All described names
          (every (λ key. has_described_field described key ≡ true) h))
