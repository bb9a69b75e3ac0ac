-- ===== src/OrderClient/JsonEncoder.antt =====
-- src/order_client/src/json_encoder.cpp: requests as JSON texts. Every strong type is written as the
-- number or the text under it.
use cpp_demo_build.Prelude.{List, [], ◌∷◌, Bytes, codes}
use cpp_demo_build.Lab.Json.{Json}
use cpp_demo_build.OrderEntry.Types.{Side, buy, sell, OrdType, market, limit, TimeInForce, day, ioc}
use cpp_demo_build.OrderEntry.Messages.{
  NewOrderSingle, ReplaceOrder, CancelOrder, Request, new_order_single, replace_order, cancel_order,
  flush,
}

unfoldable pub encode_side : Side → Bytes
encode_side buy = codes "buy"
encode_side sell = codes "sell"

unfoldable pub encode_ord_type : OrdType → Bytes
encode_ord_type market = codes "market"
encode_ord_type limit = codes "limit"

unfoldable pub encode_time_in_force : TimeInForce → Bytes
encode_time_in_force day = codes "day"
encode_time_in_force ioc = codes "ioc"

module _ (j : Json) where
  -- The payloads of the four requests, before `dump`.
  unfoldable pub new_order_payload : NewOrderSingle → List (Bytes × j.Value)
  new_order_payload order =
      (codes "message_type", j.of_string (codes "new_order_single"))
      ∷ (codes "client_id", j.of_number order.client_id)
      ∷ (codes "cl_ord_id", j.of_number order.cl_ord_id)
      ∷ (codes "security_id", j.of_number order.security_id)
      ∷ (codes "symbol", j.of_string order.symbol)
      ∷ (codes "security_exchange", j.of_string order.security_exchange)
      ∷ (codes "side", j.of_string (encode_side order.side))
      ∷ (codes "ord_type", j.of_string (encode_ord_type order.ord_type))
      ∷ (codes "time_in_force", j.of_string (encode_time_in_force order.time_in_force))
      ∷ (codes "order_qty", j.of_number order.order_qty)
      ∷ (codes "price", j.of_number order.price)
      ∷ []

  unfoldable pub replace_payload : ReplaceOrder → List (Bytes × j.Value)
  replace_payload replace =
      (codes "message_type", j.of_string (codes "replace_order"))
      ∷ (codes "client_id", j.of_number replace.client_id)
      ∷ (codes "cl_ord_id", j.of_number replace.cl_ord_id)
      ∷ (codes "orig_cl_ord_id", j.of_number replace.orig_cl_ord_id)
      ∷ (codes "security_id", j.of_number replace.security_id)
      ∷ (codes "symbol", j.of_string replace.symbol)
      ∷ (codes "security_exchange", j.of_string replace.security_exchange)
      ∷ (codes "side", j.of_string (encode_side replace.side))
      ∷ (codes "ord_type", j.of_string (encode_ord_type replace.ord_type))
      ∷ (codes "time_in_force", j.of_string (encode_time_in_force replace.time_in_force))
      ∷ (codes "order_qty", j.of_number replace.order_qty)
      ∷ (codes "price", j.of_number replace.price)
      ∷ []

  unfoldable pub cancel_payload : CancelOrder → List (Bytes × j.Value)
  cancel_payload cancel =
      (codes "message_type", j.of_string (codes "cancel_order"))
      ∷ (codes "client_id", j.of_number cancel.client_id)
      ∷ (codes "cl_ord_id", j.of_number cancel.cl_ord_id)
      ∷ (codes "orig_cl_ord_id", j.of_number cancel.orig_cl_ord_id)
      ∷ []

  unfoldable pub flush_payload : List (Bytes × j.Value)
  flush_payload = (codes "message_type", j.of_string (codes "flush")) ∷ []

  unfoldable pub payload : Request → List (Bytes × j.Value)
  payload (new_order_single order) = new_order_payload order
  payload (replace_order replace) = replace_payload replace
  payload (cancel_order cancel) = cancel_payload cancel
  payload flush = flush_payload

  unfoldable pub encode : Request → Bytes
  encode request = j.dump (j.object (payload request))
