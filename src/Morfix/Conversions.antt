-- ===== src/Morfix/Conversions.antt =====
-- src/morfix/src/conversions.cpp: the normalized messages to the FIX shape and back. Flush requests
-- and parser rejects have no FIX shape.
pub mod RoundTrip
use cpp_demo_build.Prelude.{Option, none, some}
use cpp_demo_build.Mor.Messages as mor
use cpp_demo_build.Morfix.Messages as fix

pub to_fix_new_order_single : mor.NewOrderSingle → fix.NewOrderSingle
to_fix_new_order_single request = record {
  account = request.client_id;
  cl_ord_id = request.cl_ord_id;
  security_id = request.security_id;
  symbol = request.symbol;
  security_exchange = request.security_exchange;
  side = request.side;
  ord_type = request.ord_type;
  time_in_force = request.time_in_force;
  order_qty = request.order_qty;
  price = request.price;
}

pub to_fix_replace_request : mor.ReplaceRequest → fix.OrderCancelReplaceRequest
to_fix_replace_request request = record {
  account = request.client_id;
  cl_ord_id = request.cl_ord_id;
  orig_cl_ord_id = request.orig_cl_ord_id;
  security_id = request.security_id;
  symbol = request.symbol;
  security_exchange = request.security_exchange;
  side = request.side;
  ord_type = request.ord_type;
  time_in_force = request.time_in_force;
  order_qty = request.order_qty;
  price = request.price;
}

pub to_fix_cancel_request : mor.CancelRequest → fix.OrderCancelRequest
to_fix_cancel_request request = record {
  account = request.client_id;
  cl_ord_id = request.cl_ord_id;
  orig_cl_ord_id = request.orig_cl_ord_id;
}

pub to_fix_request : mor.Request → Option fix.Request
unfolding to_fix_new_order_single to_fix_replace_request to_fix_cancel_request
to_fix_request (mor.Request.new_order_single r) =
    some (fix.Request.new_order_single (to_fix_new_order_single r))
to_fix_request (mor.Request.replace_request r) =
    some (fix.Request.order_cancel_replace_request (to_fix_replace_request r))
to_fix_request (mor.Request.cancel_request r) =
    some (fix.Request.order_cancel_request (to_fix_cancel_request r))
to_fix_request mor.Request.flush_request = none

pub to_fix_execution_report : mor.ExecutionReport → fix.ExecutionReport
to_fix_execution_report event = record {
  account = event.client_id;
  cl_ord_id = event.cl_ord_id;
  orig_cl_ord_id = event.orig_cl_ord_id;
  order_id = event.order_id;
  exec_id = event.exec_id;
  security_id = event.security_id;
  symbol = event.symbol;
  security_exchange = event.security_exchange;
  side = event.side;
  ord_type = event.ord_type;
  time_in_force = event.time_in_force;
  exec_type = event.exec_type;
  ord_status = event.ord_status;
  order_qty = event.order_qty;
  cum_qty = event.cum_qty;
  leaves_qty = event.leaves_qty;
  last_qty = event.last_qty;
  last_px = event.last_px;
  avg_px = event.avg_px;
  transact_time = event.transact_time;
  reject_reason = event.reject_reason;
  text = event.text;
}

pub to_fix_cancel_reject : mor.CancelReject → fix.OrderCancelReject
to_fix_cancel_reject event = record {
  account = event.client_id;
  cl_ord_id = event.cl_ord_id;
  orig_cl_ord_id = event.orig_cl_ord_id;
  reject_reason = event.reject_reason;
  text = event.text;
  transact_time = event.transact_time;
}

pub to_fix_event : mor.Event → Option fix.Event
unfolding to_fix_execution_report to_fix_cancel_reject
to_fix_event (mor.Event.execution_report e) =
    some (fix.Event.execution_report (to_fix_execution_report e))
to_fix_event (mor.Event.cancel_reject e) =
    some (fix.Event.order_cancel_reject (to_fix_cancel_reject e))
to_fix_event (mor.Event.parser_reject e) = none

pub to_mor_new_order_single : fix.NewOrderSingle → mor.NewOrderSingle
to_mor_new_order_single request = record {
  client_id = request.account;
  cl_ord_id = request.cl_ord_id;
  security_id = request.security_id;
  symbol = request.symbol;
  security_exchange = request.security_exchange;
  side = request.side;
  ord_type = request.ord_type;
  time_in_force = request.time_in_force;
  order_qty = request.order_qty;
  price = request.price;
}

pub to_mor_order_cancel_replace_request : fix.OrderCancelReplaceRequest → mor.ReplaceRequest
to_mor_order_cancel_replace_request request = record {
  client_id = request.account;
  cl_ord_id = request.cl_ord_id;
  orig_cl_ord_id = request.orig_cl_ord_id;
  security_id = request.security_id;
  symbol = request.symbol;
  security_exchange = request.security_exchange;
  side = request.side;
  ord_type = request.ord_type;
  time_in_force = request.time_in_force;
  order_qty = request.order_qty;
  price = request.price;
}

pub to_mor_order_cancel_request : fix.OrderCancelRequest → mor.CancelRequest
to_mor_order_cancel_request request = record {
  client_id = request.account;
  cl_ord_id = request.cl_ord_id;
  orig_cl_ord_id = request.orig_cl_ord_id;
}

pub to_mor_request : fix.Request → mor.Request
unfolding to_mor_new_order_single to_mor_order_cancel_replace_request to_mor_order_cancel_request
to_mor_request (fix.Request.new_order_single r) =
    mor.Request.new_order_single (to_mor_new_order_single r)
to_mor_request (fix.Request.order_cancel_replace_request r) =
    mor.Request.replace_request (to_mor_order_cancel_replace_request r)
to_mor_request (fix.Request.order_cancel_request r) =
    mor.Request.cancel_request (to_mor_order_cancel_request r)

pub to_mor_execution_report : fix.ExecutionReport → mor.ExecutionReport
to_mor_execution_report event = record {
  client_id = event.account;
  cl_ord_id = event.cl_ord_id;
  orig_cl_ord_id = event.orig_cl_ord_id;
  order_id = event.order_id;
  exec_id = event.exec_id;
  security_id = event.security_id;
  symbol = event.symbol;
  security_exchange = event.security_exchange;
  side = event.side;
  ord_type = event.ord_type;
  time_in_force = event.time_in_force;
  exec_type = event.exec_type;
  ord_status = event.ord_status;
  order_qty = event.order_qty;
  cum_qty = event.cum_qty;
  leaves_qty = event.leaves_qty;
  last_qty = event.last_qty;
  last_px = event.last_px;
  avg_px = event.avg_px;
  transact_time = event.transact_time;
  reject_reason = event.reject_reason;
  text = event.text;
}

pub to_mor_order_cancel_reject : fix.OrderCancelReject → mor.CancelReject
to_mor_order_cancel_reject event = record {
  client_id = event.account;
  cl_ord_id = event.cl_ord_id;
  orig_cl_ord_id = event.orig_cl_ord_id;
  reject_reason = event.reject_reason;
  text = event.text;
  transact_time = event.transact_time;
}

pub to_mor_event : fix.Event → mor.Event
unfolding to_mor_execution_report to_mor_order_cancel_reject
to_mor_event (fix.Event.execution_report e) = mor.Event.execution_report (to_mor_execution_report e)
to_mor_event (fix.Event.order_cancel_reject e) =
    mor.Event.cancel_reject (to_mor_order_cancel_reject e)
