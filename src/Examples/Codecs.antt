-- ===== src/Examples/Codecs.antt =====
-- The wire theorems at an order and at a rejected report.
use cpp_demo_build.Prelude.{◌≡◌, none, some, arith, u64_mod, codes}
use mathlib.Core.List.{cons-ne-nil}
use cpp_demo_build.Prelude.Result.{ok, ◌>>=◌}
use cpp_demo_build.OrderEntry.Types as oe
use cpp_demo_build.Lab.Charconv.{from_chars, from_chars-format_uint}
use cpp_demo_build.Morfix.Messages as fix
use cpp_demo_build.MorfixQuickfix.Codecs.{
  initiator_encode, initiator_decode, acceptor_encode, acceptor_decode,
}
use cpp_demo_build.MorfixQuickfix.Codecs.RoundTrip.{
  acceptor_decode-initiator_encode, initiator_decode-acceptor_encode, recovered_event,
}
use mathlib.Core.Option
use cpp_demo_build.Mor.Messages as mor
use cpp_demo_build.Morfix.Conversions as conversions
use cpp_demo_build.Morfix.Conversions.RoundTrip.{request_shape, event_shape}
use cpp_demo_build.Ospec.B3.{parse_reject_reason, normalize_reject_reason}
use cpp_demo_build.Ospec.B3.RoundTrip.{parse_reject_reason-normalize_reject_reason}
use cpp_demo_build.Examples.Fixtures.{decimal_fmt, petr}

abbrev order : fix.NewOrderSingle
order = record {
  account = 7;
  cl_ord_id = 1;
  security_id = 1;
  symbol = petr;
  security_exchange = codes "BVMF";
  side = oe.Side.buy;
  ord_type = oe.OrdType.limit;
  time_in_force = oe.TimeInForce.day;
  order_qty = 100;
  price = 11;
}

acceptor_decode-initiator_encode_example :
    (initiator_encode decimal_fmt (fix.Request.new_order_single order) >>= acceptor_decode)
    ≡ ok (fix.Request.new_order_single order)
acceptor_decode-initiator_encode_example =
    acceptor_decode-initiator_encode decimal_fmt (fix.Request.new_order_single order) (record {
      account_fits = omega arith;
      cl_ord_id_fits = omega arith;
      security_id_fits = omega arith;
      order_qty_fits = omega arith;
      price_fits = omega arith;
      symbol_some = cons-ne-nil _ _;
      symbol_fits = omega arith;
      security_exchange_some = cons-ne-nil _ _;
      security_exchange_fits = omega arith;
    })

abbrev reject : fix.OrderCancelReject
reject = record {
  account = 7;
  cl_ord_id = 4;
  orig_cl_ord_id = 3;
  reject_reason = oe.RejectReason.unknown_symbol;
  text = codes "unknown symbol";
  transact_time = 0;
}

-- The reject reason does not survive the wire.
initiator_decode-acceptor_encode_example :
    (acceptor_encode decimal_fmt (fix.Event.order_cancel_reject reject) >>= initiator_decode)
    ≡ ok (recovered_event (fix.Event.order_cancel_reject reject))
initiator_decode-acceptor_encode_example =
    initiator_decode-acceptor_encode decimal_fmt (fix.Event.order_cancel_reject reject) (record {
      account_fits = omega arith;
      cl_ord_id_fits = omega arith;
      orig_cl_ord_id_fits = omega arith;
      transact_time_fits = omega arith;
    })

from_chars-format_uint_example : from_chars u64_mod (decimal_fmt.format_uint 12345) ≡ ok 12345
from_chars-format_uint_example = from_chars-format_uint decimal_fmt u64_mod 12345 (omega arith)

request_shape_example :
    Option.map conversions.to_mor_request (conversions.to_fix_request mor.Request.flush_request)
    ≡ none
request_shape_example = request_shape mor.Request.flush_request

abbrev cancel_reject : mor.Event
cancel_reject = mor.Event.cancel_reject (record {
  client_id = 7;
  cl_ord_id = 4;
  orig_cl_ord_id = 3;
  reject_reason = oe.RejectReason.unknown_order;
  text = codes "unknown order";
  transact_time = 0;
})

event_shape_example :
    Option.map conversions.to_mor_event (conversions.to_fix_event cancel_reject)
    ≡ some cancel_reject
event_shape_example = event_shape cancel_reject

parse_reject_reason-normalize_reject_reason_example :
    parse_reject_reason (normalize_reject_reason oe.RejectReason.unknown_symbol)
    ≡ ok oe.RejectReason.unknown_order
parse_reject_reason-normalize_reject_reason_example =
    parse_reject_reason-normalize_reject_reason oe.RejectReason.unknown_symbol
