-- ===== src/Mor/Conversions.antt =====
-- src/mor/src/conversions.cpp: order entry to the normalized messages and back. An overload of
-- `to_mor` or `to_order_entry` is named after the message that it takes.
pub mod RoundTrip
use cpp_demo_build.OrderEntry.Messages as oe
use cpp_demo_build.Mor.Messages as mor

pub to_mor_new_order_single : oe.NewOrderSingle → mor.NewOrderSingle
to_mor_new_order_single request = record {
  client_id = request.client_id;
  cl_ord_id = request.cl_ord_id;
  security_id = request.security_id;
  symbol = request.symbol;
  security_exchange = request.security_exchange;
  side = request.side;
  ord_type = request.ord_type;
  time_in_force = request.time_in_force;
  order_qty = request.order_qty;
  price = request.price;
}

pub to_mor_replace_order : oe.ReplaceOrder → mor.ReplaceRequest
to_mor_replace_order request = record {
  client_id = request.client_id;
  cl_ord_id = request.cl_ord_id;
  orig_cl_ord_id = request.orig_cl_ord_id;
  security_id = request.security_id;
  symbol = request.symbol;
  security_exchange = request.security_exchange;
  side = request.side;
  ord_type = request.ord_type;
  time_in_force = request.time_in_force;
  order_qty = request.order_qty;
  price = request.price;
}

pub to_mor_cancel_order : oe.CancelOrder → mor.CancelRequest
to_mor_cancel_order request = record {
  client_id = request.client_id;
  cl_ord_id = request.cl_ord_id;
  orig_cl_ord_id = request.orig_cl_ord_id;
}

pub to_mor_request : oe.Request → mor.Request
unfolding to_mor_new_order_single to_mor_replace_order to_mor_cancel_order
to_mor_request (oe.Request.new_order_single r) =
    mor.Request.new_order_single (to_mor_new_order_single r)
to_mor_request (oe.Request.replace_order r) = mor.Request.replace_request (to_mor_replace_order r)
to_mor_request (oe.Request.cancel_order r) = mor.Request.cancel_request (to_mor_cancel_order r)
to_mor_request oe.Request.flush = mor.Request.flush_request

pub to_mor_execution_report : oe.ExecutionReport → mor.ExecutionReport
to_mor_execution_report event = record {
  client_id = event.client_id;
  cl_ord_id = event.cl_ord_id;
  orig_cl_ord_id = event.orig_cl_ord_id;
  order_id = event.order_id;
  exec_id = event.exec_id;
  security_id = event.security_id;
  symbol = event.symbol;
  security_exchange = event.security_exchange;
  side = event.side;
  ord_type = event.ord_type;
  time_in_force = event.time_in_force;
  exec_type = event.exec_type;
  ord_status = event.ord_status;
  order_qty = event.order_qty;
  cum_qty = event.cum_qty;
  leaves_qty = event.leaves_qty;
  last_qty = event.last_qty;
  last_px = event.last_px;
  avg_px = event.avg_px;
  transact_time = event.transact_time;
  reject_reason = event.reject_reason;
  text = event.text;
}

pub to_mor_cancel_reject : oe.CancelReject → mor.CancelReject
to_mor_cancel_reject event = record {
  client_id = event.client_id;
  cl_ord_id = event.cl_ord_id;
  orig_cl_ord_id = event.orig_cl_ord_id;
  reject_reason = event.reject_reason;
  text = event.text;
  transact_time = event.transact_time;
}

pub to_mor_rejection : oe.Rejection → mor.ParserReject
to_mor_rejection rejection = record {
  raw_payload = rejection.raw_payload;
  reason = rejection.reason;
}

pub to_mor_event : oe.Event → mor.Event
unfolding to_mor_execution_report to_mor_cancel_reject
to_mor_event (oe.Event.execution_report e) = mor.Event.execution_report (to_mor_execution_report e)
to_mor_event (oe.Event.cancel_reject e) = mor.Event.cancel_reject (to_mor_cancel_reject e)

pub to_order_entry_new_order_single : mor.NewOrderSingle → oe.NewOrderSingle
to_order_entry_new_order_single request = record {
  client_id = request.client_id;
  cl_ord_id = request.cl_ord_id;
  security_id = request.security_id;
  symbol = request.symbol;
  security_exchange = request.security_exchange;
  side = request.side;
  ord_type = request.ord_type;
  time_in_force = request.time_in_force;
  order_qty = request.order_qty;
  price = request.price;
}

pub to_order_entry_replace_request : mor.ReplaceRequest → oe.ReplaceOrder
to_order_entry_replace_request request = record {
  client_id = request.client_id;
  cl_ord_id = request.cl_ord_id;
  orig_cl_ord_id = request.orig_cl_ord_id;
  security_id = request.security_id;
  symbol = request.symbol;
  security_exchange = request.security_exchange;
  side = request.side;
  ord_type = request.ord_type;
  time_in_force = request.time_in_force;
  order_qty = request.order_qty;
  price = request.price;
}

pub to_order_entry_cancel_request : mor.CancelRequest → oe.CancelOrder
to_order_entry_cancel_request request = record {
  client_id = request.client_id;
  cl_ord_id = request.cl_ord_id;
  orig_cl_ord_id = request.orig_cl_ord_id;
}

pub to_order_entry_request : mor.Request → oe.Request
unfolding to_order_entry_new_order_single to_order_entry_replace_request
    to_order_entry_cancel_request
to_order_entry_request (mor.Request.new_order_single r) =
    oe.Request.new_order_single (to_order_entry_new_order_single r)
to_order_entry_request (mor.Request.replace_request r) =
    oe.Request.replace_order (to_order_entry_replace_request r)
to_order_entry_request (mor.Request.cancel_request r) =
    oe.Request.cancel_order (to_order_entry_cancel_request r)
to_order_entry_request mor.Request.flush_request = oe.Request.flush

pub to_order_entry_execution_report : mor.ExecutionReport → oe.ExecutionReport
to_order_entry_execution_report event = record {
  client_id = event.client_id;
  cl_ord_id = event.cl_ord_id;
  orig_cl_ord_id = event.orig_cl_ord_id;
  order_id = event.order_id;
  exec_id = event.exec_id;
  security_id = event.security_id;
  symbol = event.symbol;
  security_exchange = event.security_exchange;
  side = event.side;
  ord_type = event.ord_type;
  time_in_force = event.time_in_force;
  exec_type = event.exec_type;
  ord_status = event.ord_status;
  order_qty = event.order_qty;
  cum_qty = event.cum_qty;
  leaves_qty = event.leaves_qty;
  last_qty = event.last_qty;
  last_px = event.last_px;
  avg_px = event.avg_px;
  transact_time = event.transact_time;
  reject_reason = event.reject_reason;
  text = event.text;
}

pub to_order_entry_cancel_reject : mor.CancelReject → oe.CancelReject
to_order_entry_cancel_reject event = record {
  client_id = event.client_id;
  cl_ord_id = event.cl_ord_id;
  orig_cl_ord_id = event.orig_cl_ord_id;
  reject_reason = event.reject_reason;
  text = event.text;
  transact_time = event.transact_time;
}

pub to_order_entry_parser_reject : mor.ParserReject → oe.Rejection
to_order_entry_parser_reject rejection = record {
  raw_payload = rejection.raw_payload;
  reason = rejection.reason;
}
