-- ===== src/Ospec/Fields.antt =====
-- src/ospec/ospec/b3.hpp: the B3 tags of the FIX fields.
use cpp_demo_build.Prelude.{ℕ, Bytes, codes}

-- The names are for error texts; a field is known by its number.
pub record FieldSpec : Type 0 where
  pub number : ℕ
  pub name : Bytes

abbrev pub account : FieldSpec
account = record { number = 1; name = codes "Account" }

abbrev pub avg_px : FieldSpec
avg_px = record { number = 6; name = codes "AvgPx" }

abbrev pub cum_qty : FieldSpec
cum_qty = record { number = 14; name = codes "CumQty" }

abbrev pub cl_ord_id : FieldSpec
cl_ord_id = record { number = 11; name = codes "ClOrdID" }

abbrev pub last_px : FieldSpec
last_px = record { number = 31; name = codes "LastPx" }

abbrev pub last_qty : FieldSpec
last_qty = record { number = 32; name = codes "LastQty" }

abbrev pub order_id : FieldSpec
order_id = record { number = 37; name = codes "OrderID" }

abbrev pub orig_cl_ord_id : FieldSpec
orig_cl_ord_id = record { number = 41; name = codes "OrigClOrdID" }

abbrev pub order_qty : FieldSpec
order_qty = record { number = 38; name = codes "OrderQty" }

abbrev pub ord_status : FieldSpec
ord_status = record { number = 39; name = codes "OrdStatus" }

abbrev pub ord_type : FieldSpec
ord_type = record { number = 40; name = codes "OrdType" }

abbrev pub price : FieldSpec
price = record { number = 44; name = codes "Price" }

abbrev pub security_id : FieldSpec
security_id = record { number = 48; name = codes "SecurityID" }

abbrev pub text : FieldSpec
text = record { number = 58; name = codes "Text" }

abbrev pub side : FieldSpec
side = record { number = 54; name = codes "Side" }

abbrev pub symbol : FieldSpec
symbol = record { number = 55; name = codes "Symbol" }

abbrev pub time_in_force : FieldSpec
time_in_force = record { number = 59; name = codes "TimeInForce" }

abbrev pub transact_time : FieldSpec
transact_time = record { number = 60; name = codes "TransactTime" }

abbrev pub cxl_rej_reason : FieldSpec
cxl_rej_reason = record { number = 102; name = codes "CxlRejReason" }

abbrev pub leaves_qty : FieldSpec
leaves_qty = record { number = 151; name = codes "LeavesQty" }

abbrev pub security_exchange : FieldSpec
security_exchange = record { number = 207; name = codes "SecurityExchange" }

abbrev pub exec_id : FieldSpec
exec_id = record { number = 17; name = codes "ExecID" }

abbrev pub exec_type : FieldSpec
exec_type = record { number = 150; name = codes "ExecType" }

abbrev pub md_update_action : FieldSpec
md_update_action = record { number = 279; name = codes "MDUpdateAction" }

abbrev pub md_entry_type : FieldSpec
md_entry_type = record { number = 269; name = codes "MDEntryType" }

abbrev pub trade_condition : FieldSpec
trade_condition = record { number = 277; name = codes "TradeCondition" }
