-- ===== src/OrderEntry/JsonDecoder/Errors.antt =====
-- How the decoder fails, and what it takes for members that are left out.
use cpp_demo_build.Prelude.{
  ℕ, ◌≡◌, refl, Bytes, codes, eqb, ◌++◌, length, subst, ltb, if◌then◌else◌, Bool-cases, inl, inr,
  Bool, true, false,
}
use cpp_demo_build.Prelude.Throws.{Throws, value, threw, ◌>>=◌}
use cpp_demo_build.Lab.Json.{Json}
use cpp_demo_build.OrderEntry.Messages.{
  Request, new_order_single, replace_order, cancel_order, flush,
}
use cpp_demo_build.OrderEntry.Session.{Decoded, decoded, failed, DecodeFailure, parser_error}
use cpp_demo_build.OrderEntry.JsonDecoder.{
  decode, decode_document, decode_typed, caught, decode_new_order, decode_replace_order,
  decode_cancel_order, get_required,
}

-- A decoder result is a request or a parser error.
abbrev IsOrderly : Decoded → Type 0
IsOrderly (decoded r) = Unit {0}
IsOrderly (failed f) = (reason : Bytes) × (f ≡ parser_error reason)

Orderly : Throws Decoded → Type 0
Orderly (value d) = IsOrderly d
Orderly (threw what) = Unit {0}

Orderly-bind :
    {A : Type 0} (t : Throws A) (f : A → Throws Decoded)
    → ((a : A) → Orderly (f a))
    → Orderly (t >>= f)
unfolding Orderly
Orderly-bind (value a) f h = h a
Orderly-bind (threw what) f h = tt

caught-IsOrderly : (t : Throws Decoded) → Orderly t → IsOrderly (caught t)
unfolding caught Orderly
caught-IsOrderly (value d) h = h
caught-IsOrderly (threw what) h = (codes "json decode failed: " ++ what, refl)

if-Orderly :
    (b : Bool) (t u : Throws Decoded) → Orderly t → Orderly u → Orderly (if b then t else u)
if-Orderly true t u h k = h
if-Orderly false t u h k = k

request-Orderly :
    {A : Type 0} (t : Throws A) (make : A → Request) → Orderly (t >>= λ a. value (decoded (make a)))
unfolding Orderly
request-Orderly t make = Orderly-bind t (λ a. value (decoded (make a))) (λ a. tt)

flush-Orderly : Orderly (value (decoded flush))
unfolding Orderly
flush-Orderly = tt

unknown_type-Orderly : (text : Bytes) → Orderly (value (failed (parser_error text)))
unfolding Orderly
unknown_type-Orderly text = (text, refl)

module _ (j : Json) where
  decode_typed-Orderly :
      (message_type : Bytes) (document : j.Value) → Orderly (decode_typed j message_type document)
  unfolding decode_typed
  decode_typed-Orderly message_type document =
      if-Orderly (eqb message_type (codes "new_order_single")) _ _
        (request-Orderly (decode_new_order j document) new_order_single)
        (if-Orderly (eqb message_type (codes "replace_order")) _ _
          (request-Orderly (decode_replace_order j document) replace_order)
          (if-Orderly (eqb message_type (codes "cancel_order")) _ _
            (request-Orderly (decode_cancel_order j document) cancel_order)
            (if-Orderly (eqb message_type (codes "flush")) _ _ flush-Orderly (
              unknown_type-Orderly (codes "unknown message_type '" ++ message_type ++ codes "'")))))

  every : (max_datagram_size : ℕ) (payload : Bytes) → IsOrderly (decode j max_datagram_size payload)
  unfolding decode decode_document
  every max_datagram_size payload = elim (Bool-cases (ltb max_datagram_size (length payload))) [
    | inl over ↦ rw over (_, refl)
    | inr fits ↦ rw fits (
        caught-IsOrderly _ (
          Orderly-bind (j.parse payload) _ (λ document.
            Orderly-bind (get_required j j.get_string document (codes "message_type")) _
              (λ message_type. decode_typed-Orderly message_type document))))
  ]

  -- Whatever the datagram, the decoder returns a request or a parser error with its reason: no other
  -- failure and no exception leaves it.
  pub decode-IsOrderly :
      (max_datagram_size : ℕ) (payload : Bytes) (f : DecodeFailure)
      → decode j max_datagram_size payload ≡ failed f
      → (reason : Bytes) × (f ≡ parser_error reason)
  decode-IsOrderly max_datagram_size payload f h =
      subst IsOrderly h (every max_datagram_size payload)
