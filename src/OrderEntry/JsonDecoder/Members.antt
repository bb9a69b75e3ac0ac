-- ===== src/OrderEntry/JsonDecoder/Members.antt =====
-- What the decoder reads at a member that the encoder wrote.
use cpp_demo_build.Prelude.{
  ℕ, ◌<◌, ◌≤◌, ◌≡◌, refl, some, List, Bytes, u64_mod, length, arith, ap, ◌∙◌,
}
use cpp_demo_build.Prelude.Throws.{Throws, value, ◌>>=◌}
use cpp_demo_build.Lab.Json.{Json, member, get_fixed}
use cpp_demo_build.OrderEntry.Types.{Side, buy, sell, OrdType, market, limit, TimeInForce, day, ioc}
use cpp_demo_build.OrderClient.JsonEncoder.{encode_side, encode_ord_type, encode_time_in_force}
use cpp_demo_build.OrderEntry.JsonDecoder.{
  decode_side, decode_ord_type, decode_time_in_force, get_required, get_optional, decode_or, decode,
}

pub decode_side-encode_side : (s : Side) → decode_side (encode_side s) ≡ value s
unfolding decode_side encode_side
decode_side-encode_side buy = refl
decode_side-encode_side sell = refl

pub decode_ord_type-encode_ord_type : (t : OrdType) → decode_ord_type (encode_ord_type t) ≡ value t
unfolding decode_ord_type encode_ord_type
decode_ord_type-encode_ord_type market = refl
decode_ord_type-encode_ord_type limit = refl

pub decode_time_in_force-encode_time_in_force :
    (t : TimeInForce) → decode_time_in_force (encode_time_in_force t) ≡ value t
unfolding decode_time_in_force encode_time_in_force
decode_time_in_force-encode_time_in_force day = refl
decode_time_in_force-encode_time_in_force ioc = refl

module _ (j : Json) (fields : List (Bytes × j.Value)) (key : Bytes) where
  pub get_required-object :
      {A : Type 0} (get : j.Value → Throws A) (v : j.Value)
      → member key fields ≡ some v
      → get_required j get (j.object fields) key ≡ get v
  unfolding get_required
  get_required-object get v h = rw (j.at-object fields key v h) refl

  pub required_number :
      (n : ℕ)
      → n < u64_mod
      → member key fields ≡ some (j.of_number n)
      → get_required j j.get_number (j.object fields) key ≡ value n
  required_number n b h =
      get_required-object j.get_number (j.of_number n) h ∙ j.get_number-of_number n b

  get_optional-object :
      {A : Type 0} (get : j.Value → Throws A) (v : j.Value) (fallback : A)
      → member key fields ≡ some v
      → get_optional j get (j.object fields) key fallback ≡ get v
  unfolding get_optional
  get_optional-object get v fallback h = rw (j.find-object fields key, h, get_optional) refl

  pub required_text :
      {A : Type 0} (get : Bytes → Throws A) (s : Bytes) (a : A)
      → get s ≡ value a
      → member key fields ≡ some (j.of_string s)
      → (get_required j j.get_string (j.object fields) key >>= get) ≡ value a
  required_text get s a g h =
      ap (λ t. t >>= get)
        (get_required-object j.get_string (j.of_string s) h ∙ j.get_string-of_string s)
      ∙ g

  get_fixed-of_string : (n : ℕ) (s : Bytes) → length s ≤ n → get_fixed j n (j.of_string s) ≡ value s
  unfolding get_fixed
  get_fixed-of_string n s h = rw (j.get_string-of_string s) (ground arith)

  pub required_fixed :
      (n : ℕ) (s : Bytes)
      → length s ≤ n
      → member key fields ≡ some (j.of_string s)
      → get_required j (get_fixed j n) (j.object fields) key ≡ value s
  required_fixed n s b h =
      get_required-object (get_fixed j n) (j.of_string s) h ∙ get_fixed-of_string n s b

  pub optional_fixed :
      (n : ℕ) (s fallback : Bytes)
      → length s ≤ n
      → member key fields ≡ some (j.of_string s)
      → get_optional j (get_fixed j n) (j.object fields) key fallback ≡ value s
  optional_fixed n s fallback b h =
      get_optional-object (get_fixed j n) (j.of_string s) fallback h ∙ get_fixed-of_string n s b

  pub optional_number :
      (n fallback : ℕ)
      → n < u64_mod
      → member key fields ≡ some (j.of_number n)
      → get_optional j j.get_number (j.object fields) key fallback ≡ value n
  optional_number n fallback b h =
      get_optional-object j.get_number (j.of_number n) fallback h ∙ j.get_number-of_number n b

  pub decode_or-object :
      {A : Type 0} (decode : Bytes → Throws A) (s : Bytes) (a fallback : A)
      → decode s ≡ value a
      → member key fields ≡ some (j.of_string s)
      → decode_or j decode (j.object fields) key fallback ≡ value a
  unfolding decode_or
  decode_or-object decode s a fallback g h =
      rw (j.find-object fields key, h, decode_or) (required_text decode s a g h)
