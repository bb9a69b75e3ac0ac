-- ===== src/MorfixQuickfix/Codecs.antt =====
-- src/morfix_quickfix/src/codecs.cpp: the initiator and the acceptor, which pick by message type.
pub mod Orders
pub mod Reports
pub mod Events
pub mod RoundTrip
use cpp_demo_build.Prelude.{eqb, if◌then◌else◌}
use cpp_demo_build.Prelude.Result.{Result, ok, err, unsupported_message, ◌>>=◌}
use cpp_demo_build.Lab.Charconv.{Fmt}
use cpp_demo_build.QuickfixFix.Message.{Message}
use cpp_demo_build.Morfix.Messages as fix
use cpp_demo_build.MorfixQuickfix.Decode.{
  decode_new_order_single, decode_order_cancel_replace_request, decode_order_cancel_request,
  decode_execution_report, decode_order_cancel_reject,
}
use cpp_demo_build.MorfixQuickfix.Encode.{
  new_order_single_msg_type, order_cancel_replace_request_msg_type, order_cancel_request_msg_type,
  execution_report_msg_type, order_cancel_reject_msg_type, encode_new_order_single,
  encode_order_cancel_replace_request, encode_order_cancel_request, encode_execution_report,
  encode_order_cancel_reject,
}

module _ (fmt : Fmt) where
  pub initiator_encode : fix.Request → Result Message
  initiator_encode (fix.Request.new_order_single r) = ok (encode_new_order_single fmt r)
  initiator_encode (fix.Request.order_cancel_replace_request r) =
      ok (encode_order_cancel_replace_request fmt r)
  initiator_encode (fix.Request.order_cancel_request r) = ok (encode_order_cancel_request fmt r)

  pub acceptor_encode : fix.Event → Result Message
  acceptor_encode (fix.Event.execution_report e) = ok (encode_execution_report fmt e)
  acceptor_encode (fix.Event.order_cancel_reject e) = ok (encode_order_cancel_reject fmt e)

pub initiator_decode : Message → Result fix.Event
unfolding eqb
initiator_decode m =
    if eqb m.msg_type execution_report_msg_type
    then (do e ← decode_execution_report m; ok (fix.Event.execution_report e))
    else if eqb m.msg_type order_cancel_reject_msg_type
    then (do e ← decode_order_cancel_reject m; ok (fix.Event.order_cancel_reject e))
    else err (unsupported_message m.msg_type)

pub acceptor_decode : Message → Result fix.Request
unfolding eqb
acceptor_decode m =
    if eqb m.msg_type new_order_single_msg_type
    then (do r ← decode_new_order_single m; ok (fix.Request.new_order_single r))
    else if eqb m.msg_type order_cancel_replace_request_msg_type
    then (do
      r ← decode_order_cancel_replace_request m
      ok (fix.Request.order_cancel_replace_request r))
    else if eqb m.msg_type order_cancel_request_msg_type
    then (do r ← decode_order_cancel_request m; ok (fix.Request.order_cancel_request r))
    else err (unsupported_message m.msg_type)
