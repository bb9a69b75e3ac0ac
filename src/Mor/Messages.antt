-- ===== src/Mor/Messages.antt =====
-- src/mor/mor/messages.hpp: the normalized order-routing messages.
use cpp_demo_build.Prelude.{Bytes, Option}
use cpp_demo_build.OrderEntry.Types.{
  ClientId, ClOrdId, OrigClOrdId, OrderId, ExecId, SecurityId, Symbol, SecurityExchange, Price,
  Quantity, Timestamp, Side, OrdType, TimeInForce, ExecType, OrdStatus, RejectReason,
}

pub record NewOrderSingle : Type 0 where
  pub client_id : ClientId
  pub cl_ord_id : ClOrdId
  pub security_id : SecurityId
  pub symbol : Symbol
  pub security_exchange : SecurityExchange
  pub side : Side
  pub ord_type : OrdType
  pub time_in_force : TimeInForce
  pub order_qty : Quantity
  pub price : Price

pub record ReplaceRequest : Type 0 where
  pub client_id : ClientId
  pub cl_ord_id : ClOrdId
  pub orig_cl_ord_id : OrigClOrdId
  pub security_id : SecurityId
  pub symbol : Symbol
  pub security_exchange : SecurityExchange
  pub side : Side
  pub ord_type : OrdType
  pub time_in_force : TimeInForce
  pub order_qty : Quantity
  pub price : Price

pub record CancelRequest : Type 0 where
  pub client_id : ClientId
  pub cl_ord_id : ClOrdId
  pub orig_cl_ord_id : OrigClOrdId

pub data Request : Type 0 where
  new_order_single : NewOrderSingle → Request
  replace_request : ReplaceRequest → Request
  cancel_request : CancelRequest → Request
  flush_request : Request

pub record ExecutionReport : Type 0 where
  pub client_id : ClientId
  pub cl_ord_id : ClOrdId
  pub orig_cl_ord_id : Option OrigClOrdId
  pub order_id : OrderId
  pub exec_id : ExecId
  pub security_id : SecurityId
  pub symbol : Symbol
  pub security_exchange : SecurityExchange
  pub side : Side
  pub ord_type : OrdType
  pub time_in_force : TimeInForce
  pub exec_type : ExecType
  pub ord_status : OrdStatus
  pub order_qty : Quantity
  pub cum_qty : Quantity
  pub leaves_qty : Quantity
  pub last_qty : Option Quantity
  pub last_px : Option Price
  pub avg_px : Option Price
  pub transact_time : Timestamp
  pub reject_reason : Option RejectReason
  pub text : Bytes

pub record CancelReject : Type 0 where
  pub client_id : ClientId
  pub cl_ord_id : ClOrdId
  pub orig_cl_ord_id : OrigClOrdId
  pub reject_reason : RejectReason
  pub text : Bytes
  pub transact_time : Timestamp

pub record ParserReject : Type 0 where
  pub raw_payload : Bytes
  pub reason : Bytes

pub data Event : Type 0 where
  execution_report : ExecutionReport → Event
  cancel_reject : CancelReject → Event
  parser_reject : ParserReject → Event
