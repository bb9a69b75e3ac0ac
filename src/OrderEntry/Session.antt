-- ===== src/OrderEntry/Session.antt =====
-- src/order_entry/{src/session.cpp,order_entry/factories.hpp,order_entry/errors.hpp}: packets to
-- requests or rejections. The decoder is injected, so it is a parameter.
use cpp_demo_build.Prelude.{
  ◌≢◌, ◌⊎◌, ◌≡◌, refl, ◌↔◌, List, [], ◌∷◌, ◌++◌, Bytes, codes, is_empty, if◌then◌else◌, inl, inr,
  ◌∙◌, sym, ap,
}
use mathlib.Core.List.{cons-ne-nil}
use cpp_demo_build.OrderEntry.Messages.{Request, Rejection}
use cpp_demo_build.Lab.Algorithm.{trim, IsBlank, trim-IsBlank}

-- The failures of a decoder: the structured errors, another error or an exception with its text, or
-- anything else.
pub data DecodeFailure : Type 0 where
  invalid_field : (field_name field_value : Bytes) → DecodeFailure
  missing_field : (field_name : Bytes) → DecodeFailure
  parser_error : (reason : Bytes) → DecodeFailure
  other_error : (what : Bytes) → DecodeFailure
  exception : (what : Bytes) → DecodeFailure
  unknown_failure : DecodeFailure

pub data Decoded : Type 0 where
  decoded : Request → Decoded
  failed : DecodeFailure → Decoded

-- The text of each failure.
unfoldable pub what : DecodeFailure → Bytes
what (invalid_field field_name field_value) =
    codes "invalid field " ++ field_name ++ codes "=\"" ++ field_value ++ codes "\""
what (missing_field field_name) = codes "missing required field: " ++ field_name
what (parser_error reason) = codes "parser error: " ++ reason
what (other_error text) = text
what (exception text) = text
what unknown_failure = codes "unknown decoder failure"

unfoldable pub make_rejection : DecodeFailure → Bytes → Rejection
unfolding what
make_rejection failure packet = record { raw_payload = packet; reason = what failure }

-- The callbacks of a session.
pub data Delivery : Type 0 where
  on_request : Request → Delivery
  on_rejected : Rejection → Delivery

unfoldable pub outcome : Decoded → Bytes → Delivery
outcome (decoded request) packet = on_request request
outcome (failed failure) packet = on_rejected (make_rejection failure packet)

module _ (decode : Bytes → Decoded) where
  unfoldable pub send_packet : Bytes → List Delivery
  send_packet packet = if is_empty (trim packet) then [] else outcome (decode packet) packet ∷ []

  sent :
      (packet t : Bytes)
      → trim packet ≡ t
      → ((send_packet packet ≡ []) × (t ≡ []))
        ⊎ ((send_packet packet ≡ outcome (decode packet) packet ∷ []) × (t ≢ []))
  unfolding send_packet
  sent packet [] e = inl (rw e refl, refl)
  sent packet (c ∷ t) e = inr (rw e refl, cons-ne-nil c t)

  -- A session calls nobody for a packet exactly when the packet is all whitespace.
  pub send_packet-IsBlank : (packet : Bytes) → (send_packet packet ≡ []) ↔ IsBlank packet
  send_packet-IsBlank packet = elim (sent packet (trim packet) refl) [
    | inl (none_sent, empty) ↦ (λ e. (trim-IsBlank packet).0 empty, λ b. none_sent)
    | inr (one_sent, occupied) ↦ (
      λ e. absurd (cons-ne-nil _ _ (sym one_sent ∙ e)),
      λ b. absurd (occupied ((trim-IsBlank packet).1 b)),
    )
  ]

  -- A packet that is not all whitespace leads to the one call `on_request` of a request exactly when
  -- the decoder gives that request for it.
  pub send_packet-request :
      (packet : Bytes) (request : Request)
      → ¬ IsBlank packet
      → (send_packet packet ≡ on_request request ∷ []) ↔ (decode packet ≡ decoded request)
  unfolding outcome
  send_packet-request packet request h = elim (sent packet (trim packet) refl) [
    | inl (none_sent, empty) ↦ absurd (h ((trim-IsBlank packet).0 empty))
    | inr (one_sent, occupied) ↦ (
      λ e. request_of (decode packet) (sym one_sent ∙ e),
      λ e. one_sent ∙ ap (λ (d : Decoded). outcome d packet ∷ []) e,
    )
  ]
    where
      request_of :
          (d : Decoded) → outcome d packet ∷ [] ≡ on_request request ∷ [] → d ≡ decoded request
      request_of (decoded r) e = cc
      request_of (failed f) e = cc
