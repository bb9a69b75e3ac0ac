-- ===== src/OrderEntry/JsonDecoder/WireTypes.antt =====
-- The requests that fit the wire types of src/order_entry/order_entry/types.hpp.
use cpp_demo_build.Prelude.{◌<◌, ◌≤◌, u64_mod, length}
use cpp_demo_build.Lab.Json.{IsAscii}
use cpp_demo_build.OrderEntry.Messages.{
  NewOrderSingle, ReplaceOrder, CancelOrder, Request, new_order_single, replace_order, cancel_order,
  flush,
}
use cpp_demo_build.OrderEntry.JsonDecoder.{symbol_size, exchange_size}

-- What the wire types of an order carry.
pub record IsWireOrder (order : NewOrderSingle) : Type 0 where
  pub client_id_fits : order.client_id < u64_mod
  pub cl_ord_id_fits : order.cl_ord_id < u64_mod
  pub security_id_fits : order.security_id < u64_mod
  pub order_qty_fits : order.order_qty < u64_mod
  pub price_fits : order.price < u64_mod
  pub symbol_fits : length order.symbol ≤ symbol_size
  pub exchange_fits : length order.security_exchange ≤ exchange_size
  pub symbol_ascii : IsAscii order.symbol
  pub exchange_ascii : IsAscii order.security_exchange

pub record IsWireReplace (replace : ReplaceOrder) : Type 0 where
  pub order : IsWireOrder (record {
    client_id = replace.client_id;
    cl_ord_id = replace.cl_ord_id;
    security_id = replace.security_id;
    symbol = replace.symbol;
    security_exchange = replace.security_exchange;
    side = replace.side;
    ord_type = replace.ord_type;
    time_in_force = replace.time_in_force;
    order_qty = replace.order_qty;
    price = replace.price;
  })
  pub orig_cl_ord_id_fits : replace.orig_cl_ord_id < u64_mod

pub record IsWireCancel (cancel : CancelOrder) : Type 0 where
  pub client_id_fits : cancel.client_id < u64_mod
  pub cl_ord_id_fits : cancel.cl_ord_id < u64_mod
  pub orig_cl_ord_id_fits : cancel.orig_cl_ord_id < u64_mod

abbrev pub IsWireRequest : Request → Type 0
IsWireRequest (new_order_single order) = IsWireOrder order
IsWireRequest (replace_order replace) = IsWireReplace replace
IsWireRequest (cancel_order cancel) = IsWireCancel cancel
IsWireRequest flush = Unit {0}
