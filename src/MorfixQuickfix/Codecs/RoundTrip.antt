-- ===== src/MorfixQuickfix/Codecs/RoundTrip.antt =====
-- The codecs of the two ends: what one end encodes, the other decodes.
use cpp_demo_build.Prelude.{ℕ, Option, some, none, Bytes, [], ◌∷◌, ◌<◌, ◌≡◌, refl, u64_mod}
use cpp_demo_build.Prelude.Result.{ok, ◌>>=◌}
use cpp_demo_build.OrderEntry.Types.{RejectReason}
use cpp_demo_build.Ospec.Fields.{FieldSpec}
use cpp_demo_build.Lab.Charconv.{Fmt}
use cpp_demo_build.QuickfixFix.Message.{Message, set}
use cpp_demo_build.Morfix.Messages as fix
use cpp_demo_build.MorfixQuickfix.Fields.{set_uint, set_text, set_char, set_optional_uint}
use cpp_demo_build.MorfixQuickfix.Encode.{
  execution_report_msg_type, order_cancel_reject_msg_type, encode_new_order_single,
  encode_order_cancel_replace_request, encode_order_cancel_request, encode_execution_report,
  encode_order_cancel_reject, set_reject_reason, set_nonempty_text,
}
use cpp_demo_build.MorfixQuickfix.Codecs.{
  initiator_encode, initiator_decode, acceptor_encode, acceptor_decode,
}
use cpp_demo_build.MorfixQuickfix.Codecs.Orders.{
  IsWireOrder, order_of, decode-encode_new_order_single, decode-encode_order_cancel_replace_request,
  decode-encode_order_cancel_request,
}
use cpp_demo_build.MorfixQuickfix.Codecs.Events.{
  IsWireReport, IsWireReject, recovered_report, recovered_reject, decode-encode_execution_report,
  decode-encode_order_cancel_reject,
}

-- What the codec asks of a request.
abbrev pub IsWireRequest : fix.Request → Type 0
IsWireRequest (fix.Request.new_order_single r) = IsWireOrder r
IsWireRequest (fix.Request.order_cancel_replace_request r) =
    IsWireOrder (order_of r) × (r.orig_cl_ord_id < u64_mod)
IsWireRequest (fix.Request.order_cancel_request r) =
    (r.account < u64_mod) × (r.cl_ord_id < u64_mod) × (r.orig_cl_ord_id < u64_mod)

abbrev pub IsWireEvent : fix.Event → Type 0
IsWireEvent (fix.Event.execution_report e) = IsWireReport e
IsWireEvent (fix.Event.order_cancel_reject e) = IsWireReject e

-- The event with the reject reason that its venue code stands for.
abbrev pub recovered_event : fix.Event → fix.Event
recovered_event (fix.Event.execution_report e) = fix.Event.execution_report (recovered_report e)
recovered_event (fix.Event.order_cancel_reject e) =
    fix.Event.order_cancel_reject (recovered_reject e)

module _ (fmt : Fmt) where
  msg_type-set_optional_uint :
      (m : Message) (f : FieldSpec) (o : Option ℕ)
      → (set_optional_uint fmt m f o).msg_type ≡ m.msg_type
  unfolding set_optional_uint set_uint set
  msg_type-set_optional_uint m f none = refl
  msg_type-set_optional_uint m f (some n) = refl

  msg_type-set_reject_reason :
      (m : Message) (o : Option RejectReason) → (set_reject_reason fmt m o).msg_type ≡ m.msg_type
  unfolding set_reject_reason set_uint set
  msg_type-set_reject_reason m none = refl
  msg_type-set_reject_reason m (some r) = refl

  msg_type-set_nonempty_text :
      (m : Message) (s : Bytes) → (set_nonempty_text fmt m s).msg_type ≡ m.msg_type
  unfolding set_nonempty_text set_text set
  msg_type-set_nonempty_text m [] = refl
  msg_type-set_nonempty_text m (c ∷ t) = refl

  msg_type-set_uint :
      (m : Message) (f : FieldSpec) (n : ℕ) → (set_uint fmt m f n).msg_type ≡ m.msg_type
  unfolding set_uint set
  msg_type-set_uint m f n = refl

  msg_type-set_text :
      (m : Message) (f : FieldSpec) (s : Bytes) → (set_text fmt m f s).msg_type ≡ m.msg_type
  unfolding set_text set
  msg_type-set_text m f s = refl

  msg_type-set_char : (m : Message) (f : FieldSpec) (c : ℕ) → (set_char m f c).msg_type ≡ m.msg_type
  unfolding set_char set
  msg_type-set_char m f c = refl

  ruleset msg_type_laws = (
    msg_type-set_optional_uint, msg_type-set_reject_reason, msg_type-set_nonempty_text,
    msg_type-set_uint, msg_type-set_text, msg_type-set_char,
  )

  msg_type-encode_execution_report :
      (e : fix.ExecutionReport)
      → (encode_execution_report fmt e).msg_type ≡ execution_report_msg_type
  unfolding encode_execution_report
  msg_type-encode_execution_report e = simp msg_type_laws

  msg_type-encode_order_cancel_reject :
      (e : fix.OrderCancelReject)
      → (encode_order_cancel_reject fmt e).msg_type ≡ order_cancel_reject_msg_type
  unfolding encode_order_cancel_reject
  msg_type-encode_order_cancel_reject e = simp msg_type_laws

  -- The acceptor decodes the message that the initiator encodes from a request to that request. The
  -- numbers of the request are words of 64 bits, and its symbol and exchange, where it has them, are
  -- not empty and fit their fixed strings: the decoder refuses an empty one.
  pub acceptor_decode-initiator_encode :
      (r : fix.Request) → IsWireRequest r → (initiator_encode fmt r >>= acceptor_decode) ≡ ok r
  unfolding initiator_encode acceptor_decode encode_new_order_single set_uint set set_char set_text
      encode_order_cancel_replace_request encode_order_cancel_request
  acceptor_decode-initiator_encode (fix.Request.new_order_single r) v =
      rw (decode-encode_new_order_single fmt r v) refl
  acceptor_decode-initiator_encode (fix.Request.order_cancel_replace_request r) v =
      rw (decode-encode_order_cancel_replace_request fmt r v.0 v.1) refl
  acceptor_decode-initiator_encode (fix.Request.order_cancel_request r) v =
      rw (decode-encode_order_cancel_request fmt r v.0 v.1 v.2) refl

  -- The initiator decodes the message that the acceptor encodes from an event to that event with
  -- the reject reason its venue code stands for (an unknown symbol comes back as an unknown order,
  -- every other reason as itself). The numbers of the event are words of 64 bits, and the symbol and
  -- exchange of a report are not empty and fit their fixed strings; the free text may be empty.
  pub initiator_decode-acceptor_encode :
      (e : fix.Event)
      → IsWireEvent e
      → (acceptor_encode fmt e >>= initiator_decode) ≡ ok (recovered_event e)
  unfolding acceptor_encode initiator_decode
  initiator_decode-acceptor_encode (fix.Event.execution_report e) v =
      rw (decode-encode_execution_report fmt e v, msg_type-encode_execution_report e) refl
  initiator_decode-acceptor_encode (fix.Event.order_cancel_reject e) v =
      rw (decode-encode_order_cancel_reject fmt e v, msg_type-encode_order_cancel_reject e) refl
