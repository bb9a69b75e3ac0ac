-- ===== src/MorfixQuickfix/Decode.antt =====
-- src/morfix_quickfix/src/codecs.cpp: the decoders.
use cpp_demo_build.Prelude.{ℕ, Option, none, some, [], Bytes, u64_mod}
use cpp_demo_build.Prelude.Result.{Result, ok, ◌>>=◌}
use cpp_demo_build.OrderEntry.Types.{RejectReason}
use cpp_demo_build.QuickfixFix.Message.{Message}
use cpp_demo_build.Ospec.Fields as spec
use cpp_demo_build.Ospec.B3.{
  parse_side, parse_ord_type, parse_time_in_force, parse_exec_type, parse_ord_status,
  parse_reject_reason,
}
use cpp_demo_build.Morfix.Messages as fix
use cpp_demo_build.MorfixQuickfix.Fields.{
  get_required_uint, get_required_fixed, get_required_char, get_optional, get_optional_text,
  u16_mod,
}

-- The strong types over `std::uint64_t`.
abbrev pub get_u64 : Message → spec.FieldSpec → Result ℕ
get_u64 = get_required_uint u64_mod

-- `value_or("")`
abbrev pub or_empty : Option Bytes → Bytes
or_empty none = []
or_empty (some s) = s

unfoldable pub decode_new_order_single : Message → Result fix.NewOrderSingle
decode_new_order_single m = do
  side_value ← get_required_char m spec.side
  side ← parse_side side_value
  ord_type_value ← get_required_char m spec.ord_type
  ord_type ← parse_ord_type ord_type_value
  time_in_force_value ← get_required_char m spec.time_in_force
  time_in_force ← parse_time_in_force time_in_force_value
  account ← get_u64 m spec.account
  cl_ord_id ← get_u64 m spec.cl_ord_id
  security_id ← get_u64 m spec.security_id
  symbol ← get_required_fixed 16 m spec.symbol
  security_exchange ← get_required_fixed 8 m spec.security_exchange
  order_qty ← get_u64 m spec.order_qty
  price ← get_u64 m spec.price
  ok (record {
    account = account;
    cl_ord_id = cl_ord_id;
    security_id = security_id;
    symbol = symbol;
    security_exchange = security_exchange;
    side = side;
    ord_type = ord_type;
    time_in_force = time_in_force;
    order_qty = order_qty;
    price = price;
  })

unfoldable pub decode_order_cancel_replace_request : Message → Result fix.OrderCancelReplaceRequest
decode_order_cancel_replace_request m = do
  order ← decode_new_order_single m
  orig_cl_ord_id ← get_u64 m spec.orig_cl_ord_id
  ok (record {
    account = order.account;
    cl_ord_id = order.cl_ord_id;
    orig_cl_ord_id = orig_cl_ord_id;
    security_id = order.security_id;
    symbol = order.symbol;
    security_exchange = order.security_exchange;
    side = order.side;
    ord_type = order.ord_type;
    time_in_force = order.time_in_force;
    order_qty = order.order_qty;
    price = order.price;
  })

unfoldable pub decode_order_cancel_request : Message → Result fix.OrderCancelRequest
decode_order_cancel_request m = do
  account ← get_u64 m spec.account
  cl_ord_id ← get_u64 m spec.cl_ord_id
  orig_cl_ord_id ← get_u64 m spec.orig_cl_ord_id
  ok (record { account = account; cl_ord_id = cl_ord_id; orig_cl_ord_id = orig_cl_ord_id })

-- The reject reason of a report is optional.
unfoldable pub parse_optional_reject_reason : Option ℕ → Result (Option RejectReason)
parse_optional_reject_reason none = ok none
parse_optional_reject_reason (some code) = do reason ← parse_reject_reason code; ok (some reason)

unfoldable pub decode_execution_report : Message → Result fix.ExecutionReport
decode_execution_report m = do
  side_value ← get_required_char m spec.side
  side ← parse_side side_value
  ord_type_value ← get_required_char m spec.ord_type
  ord_type ← parse_ord_type ord_type_value
  time_in_force_value ← get_required_char m spec.time_in_force
  time_in_force ← parse_time_in_force time_in_force_value
  exec_type_value ← get_required_char m spec.exec_type
  exec_type ← parse_exec_type exec_type_value
  ord_status_value ← get_required_char m spec.ord_status
  ord_status ← parse_ord_status ord_status_value
  reject_reason_code ← get_optional (get_required_uint u16_mod) m spec.cxl_rej_reason
  account ← get_u64 m spec.account
  cl_ord_id ← get_u64 m spec.cl_ord_id
  orig_cl_ord_id ← get_optional get_u64 m spec.orig_cl_ord_id
  order_id ← get_u64 m spec.order_id
  exec_id ← get_u64 m spec.exec_id
  security_id ← get_u64 m spec.security_id
  symbol ← get_required_fixed 16 m spec.symbol
  security_exchange ← get_required_fixed 8 m spec.security_exchange
  order_qty ← get_u64 m spec.order_qty
  cum_qty ← get_u64 m spec.cum_qty
  leaves_qty ← get_u64 m spec.leaves_qty
  last_qty ← get_optional get_u64 m spec.last_qty
  last_px ← get_optional get_u64 m spec.last_px
  avg_px ← get_optional get_u64 m spec.avg_px
  transact_time ← get_u64 m spec.transact_time
  text ← get_optional_text m spec.text
  reject_reason ← parse_optional_reject_reason reject_reason_code
  ok (record {
    account = account;
    cl_ord_id = cl_ord_id;
    orig_cl_ord_id = orig_cl_ord_id;
    order_id = order_id;
    exec_id = exec_id;
    security_id = security_id;
    symbol = symbol;
    security_exchange = security_exchange;
    side = side;
    ord_type = ord_type;
    time_in_force = time_in_force;
    exec_type = exec_type;
    ord_status = ord_status;
    order_qty = order_qty;
    cum_qty = cum_qty;
    leaves_qty = leaves_qty;
    last_qty = last_qty;
    last_px = last_px;
    avg_px = avg_px;
    transact_time = transact_time;
    reject_reason = reject_reason;
    text = or_empty text;
  })

unfoldable pub decode_order_cancel_reject : Message → Result fix.OrderCancelReject
decode_order_cancel_reject m = do
  reject_reason_code ← get_required_uint u16_mod m spec.cxl_rej_reason
  reject_reason ← parse_reject_reason reject_reason_code
  account ← get_u64 m spec.account
  cl_ord_id ← get_u64 m spec.cl_ord_id
  orig_cl_ord_id ← get_u64 m spec.orig_cl_ord_id
  text ← get_optional_text m spec.text
  transact_time ← get_u64 m spec.transact_time
  ok (record {
    account = account;
    cl_ord_id = cl_ord_id;
    orig_cl_ord_id = orig_cl_ord_id;
    reject_reason = reject_reason;
    text = or_empty text;
    transact_time = transact_time;
  })
