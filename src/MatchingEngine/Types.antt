-- ===== src/MatchingEngine/Types.antt =====
-- src/matching_engine/matching_engine/{types,order_state,order_node,factories,conversions}.hpp.
-- A node of the pool is its address with the order that it holds; the list hook is the place of the
-- node in the list of its level. The field `data` of the C++ node is `order` here.
use cpp_demo_build.Prelude.{ℕ, Bool, ◌&&◌, ◌==◌}
use cpp_demo_build.OrderEntry.Types.{
  ClientId, ClOrdId, SecurityId, Symbol, SecurityExchange, Price, Quantity, Side, OrdType,
  TimeInForce, buy, sell,
}
use cpp_demo_build.OrderEntry.Messages.{NewOrderSingle}
use cpp_demo_build.MarketData.Types as md

pub record OrderKey : Type 0 where
  pub client_id : ClientId
  pub cl_ord_id : ClOrdId

-- The defaulted `operator==`.
abbrev pub key_eq : OrderKey → OrderKey → Bool
key_eq a b = a.client_id == b.client_id && a.cl_ord_id == b.cl_ord_id

pub record OrderState : Type 0 where
  pub client_id : ClientId
  pub cl_ord_id : ClOrdId
  pub security_id : SecurityId
  pub symbol : Symbol
  pub security_exchange : SecurityExchange
  pub side : Side
  pub ord_type : OrdType
  pub time_in_force : TimeInForce
  pub price : Price
  pub order_qty : Quantity
  pub leaves_qty : Quantity

abbrev pub Address : Type 0
Address = ℕ

pub record OrderNode : Type 0 where
  pub address : Address
  pub order : OrderState
  pub open order use *

-- `order_key{.client_id = order.client_id, .cl_ord_id = order.cl_ord_id}`
abbrev pub key_of : OrderState → OrderKey
key_of order = record { client_id = order.client_id; cl_ord_id = order.cl_ord_id }

unfoldable pub make_order_state : NewOrderSingle → OrderState
make_order_state incoming = record {
  client_id = incoming.client_id;
  cl_ord_id = incoming.cl_ord_id;
  security_id = incoming.security_id;
  symbol = incoming.symbol;
  security_exchange = incoming.security_exchange;
  side = incoming.side;
  ord_type = incoming.ord_type;
  time_in_force = incoming.time_in_force;
  price = incoming.price;
  order_qty = incoming.order_qty;
  leaves_qty = incoming.order_qty;
}

unfoldable pub to_market_side : Side → md.Side
to_market_side buy = md.Side.buy
to_market_side sell = md.Side.sell
