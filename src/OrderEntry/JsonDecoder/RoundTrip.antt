-- ===== src/OrderEntry/JsonDecoder/RoundTrip.antt =====
-- The decoder of the server reads what the encoder of the client writes.
use cpp_demo_build.Prelude.{ℕ, ◌≤◌, ◌≡◌, refl, Bytes, codes, eqb, length, arith, ◌∙◌}
use cpp_demo_build.Prelude.Throws.{value}
use cpp_demo_build.Lab.Json.{Json, IsAscii}
use cpp_demo_build.OrderEntry.Types.{Side, buy, sell, OrdType, market, limit, TimeInForce, day, ioc}
use cpp_demo_build.OrderEntry.Messages.{
  NewOrderSingle, ReplaceOrder, CancelOrder, Request, new_order_single, replace_order, cancel_order,
  flush,
}
use cpp_demo_build.OrderEntry.Session.{decoded}
use cpp_demo_build.OrderClient.JsonEncoder.{
  encode_side, encode_ord_type, encode_time_in_force, new_order_payload, replace_payload,
  cancel_payload, flush_payload, payload, encode,
}
use cpp_demo_build.OrderEntry.JsonDecoder.{
  symbol_size, exchange_size, decode_side, decode_ord_type, decode_time_in_force, get_required,
  decode_new_order, decode_replace_order, decode_cancel_order, decode_typed, decode_document,
  caught, decode,
}
use cpp_demo_build.Lab.Json.Writable.{AreFields, nil, ◌&◌, literal, number, object-IsWritable}
use cpp_demo_build.OrderEntry.JsonDecoder.Members.{
  decode_side-encode_side, decode_ord_type-encode_ord_type,
  decode_time_in_force-encode_time_in_force, get_required-object, required_number, required_text,
  required_fixed, optional_fixed, optional_number, decode_or-object,
}
use cpp_demo_build.OrderEntry.JsonDecoder.WireTypes.{
  IsWireOrder, IsWireReplace, IsWireCancel, IsWireRequest,
}

module _ (j : Json) where
  decode_new_order-payload :
      (order : NewOrderSingle)
      → IsWireOrder order
      → decode_new_order j (j.object (new_order_payload j order)) ≡ value order
  unfolding decode_new_order new_order_payload eqb
  decode_new_order-payload order w =
      let fields = new_order_payload j order in
      rw
        (
          required_fixed j fields (codes "symbol") symbol_size order.symbol w.symbol_fits refl,
          required_number j fields (codes "price") order.price w.price_fits refl,
          required_number j fields (codes "client_id") order.client_id w.client_id_fits refl,
          required_number j fields (codes "cl_ord_id") order.cl_ord_id w.cl_ord_id_fits refl,
          optional_number j fields (codes "security_id") order.security_id _ w.security_id_fits
              refl,
          optional_fixed j fields (codes "security_exchange") exchange_size order.security_exchange
              _ w.exchange_fits refl,
          required_text j fields (codes "side") decode_side (encode_side order.side) order.side
              (decode_side-encode_side order.side) refl,
          decode_or-object j fields (codes "ord_type") decode_ord_type
              (encode_ord_type order.ord_type) order.ord_type _
              (decode_ord_type-encode_ord_type order.ord_type) refl,
          decode_or-object j fields (codes "time_in_force") decode_time_in_force
              (encode_time_in_force order.time_in_force) order.time_in_force _
              (decode_time_in_force-encode_time_in_force order.time_in_force) refl,
          required_number j fields (codes "order_qty") order.order_qty w.order_qty_fits refl,
        )
        refl

  decode_replace_order-payload :
      (replace : ReplaceOrder)
      → IsWireReplace replace
      → decode_replace_order j (j.object (replace_payload j replace)) ≡ value replace
  unfolding decode_replace_order replace_payload eqb
  decode_replace_order-payload replace v =
      let fields = replace_payload j replace in
      let w = v.order in
      rw
        (
          required_fixed j fields (codes "symbol") symbol_size replace.symbol w.symbol_fits refl,
          required_number j fields (codes "price") replace.price w.price_fits refl,
          required_number j fields (codes "client_id") replace.client_id w.client_id_fits refl,
          required_number j fields (codes "cl_ord_id") replace.cl_ord_id w.cl_ord_id_fits refl,
          required_number j fields (codes "orig_cl_ord_id") replace.orig_cl_ord_id
              v.orig_cl_ord_id_fits refl,
          optional_number j fields (codes "security_id") replace.security_id _ w.security_id_fits
              refl,
          optional_fixed j fields (codes "security_exchange") exchange_size
              replace.security_exchange _ w.exchange_fits refl,
          required_text j fields (codes "side") decode_side (encode_side replace.side) replace.side
              (decode_side-encode_side replace.side) refl,
          decode_or-object j fields (codes "ord_type") decode_ord_type
              (encode_ord_type replace.ord_type) replace.ord_type _
              (decode_ord_type-encode_ord_type replace.ord_type) refl,
          decode_or-object j fields (codes "time_in_force") decode_time_in_force
              (encode_time_in_force replace.time_in_force) replace.time_in_force _
              (decode_time_in_force-encode_time_in_force replace.time_in_force) refl,
          required_number j fields (codes "order_qty") replace.order_qty w.order_qty_fits refl,
        )
        refl

  decode_cancel_order-payload :
      (cancel : CancelOrder)
      → IsWireCancel cancel
      → decode_cancel_order j (j.object (cancel_payload j cancel)) ≡ value cancel
  unfolding decode_cancel_order cancel_payload eqb
  decode_cancel_order-payload cancel w =
      let fields = cancel_payload j cancel in
      rw
        (
          required_number j fields (codes "client_id") cancel.client_id w.client_id_fits refl,
          required_number j fields (codes "cl_ord_id") cancel.cl_ord_id w.cl_ord_id_fits refl,
          required_number j fields (codes "orig_cl_ord_id") cancel.orig_cl_ord_id
              w.orig_cl_ord_id_fits refl,
        )
        refl

  -- The dispatch finds the message type that the encoder wrote.
  message_type : Request → Bytes
  message_type (new_order_single order) = codes "new_order_single"
  message_type (replace_order replace) = codes "replace_order"
  message_type (cancel_order cancel) = codes "cancel_order"
  message_type flush = codes "flush"

  message_type-payload :
      (r : Request)
      → get_required j j.get_string (j.object (payload j r)) (codes "message_type")
        ≡ value (message_type r)
  unfolding payload new_order_payload replace_payload cancel_payload flush_payload message_type eqb
  message_type-payload (new_order_single order) =
      get_required-object j _ (codes "message_type") j.get_string _ refl ∙ j.get_string-of_string _
  message_type-payload (replace_order replace) =
      get_required-object j _ (codes "message_type") j.get_string _ refl ∙ j.get_string-of_string _
  message_type-payload (cancel_order cancel) =
      get_required-object j _ (codes "message_type") j.get_string _ refl ∙ j.get_string-of_string _
  message_type-payload flush =
      get_required-object j _ (codes "message_type") j.get_string _ refl ∙ j.get_string-of_string _

  decode_typed-payload :
      (r : Request)
      → IsWireRequest r
      → decode_typed j (message_type r) (j.object (payload j r)) ≡ value (decoded r)
  unfolding decode_typed message_type payload eqb
  decode_typed-payload (new_order_single order) w = rw (decode_new_order-payload order w) refl
  decode_typed-payload (replace_order replace) w = rw (decode_replace_order-payload replace w) refl
  decode_typed-payload (cancel_order cancel) w = rw (decode_cancel_order-payload cancel w) refl
  decode_typed-payload flush w = refl

  encode_side-IsAscii : (s : Side) → IsAscii (encode_side s)
  unfolding encode_side
  encode_side-IsAscii buy = omega arith
  encode_side-IsAscii sell = omega arith

  encode_ord_type-IsAscii : (t : OrdType) → IsAscii (encode_ord_type t)
  unfolding encode_ord_type
  encode_ord_type-IsAscii market = omega arith
  encode_ord_type-IsAscii limit = omega arith

  encode_time_in_force-IsAscii : (t : TimeInForce) → IsAscii (encode_time_in_force t)
  unfolding encode_time_in_force
  encode_time_in_force-IsAscii day = omega arith
  encode_time_in_force-IsAscii ioc = omega arith

  payload-AreFields : (r : Request) → IsWireRequest r → AreFields j (payload j r)
  unfolding payload new_order_payload replace_payload cancel_payload flush_payload
  payload-AreFields (new_order_single order) w =
      literal j _ _ (omega arith) (omega arith)
      & number j _ _ (omega arith)
      & number j _ _ (omega arith)
      & number j _ _ (omega arith)
      & literal j _ _ (omega arith) w.symbol_ascii
      & literal j _ _ (omega arith) w.exchange_ascii
      & literal j _ _ (omega arith) (encode_side-IsAscii order.side)
      & literal j _ _ (omega arith) (encode_ord_type-IsAscii order.ord_type)
      & literal j _ _ (omega arith) (encode_time_in_force-IsAscii order.time_in_force)
      & number j _ _ (omega arith)
      & number j _ _ (omega arith)
      & nil
  payload-AreFields (replace_order replace) w =
      literal j _ _ (omega arith) (omega arith)
      & number j _ _ (omega arith)
      & number j _ _ (omega arith)
      & number j _ _ (omega arith)
      & number j _ _ (omega arith)
      & literal j _ _ (omega arith) w.order.symbol_ascii
      & literal j _ _ (omega arith) w.order.exchange_ascii
      & literal j _ _ (omega arith) (encode_side-IsAscii replace.side)
      & literal j _ _ (omega arith) (encode_ord_type-IsAscii replace.ord_type)
      & literal j _ _ (omega arith) (encode_time_in_force-IsAscii replace.time_in_force)
      & number j _ _ (omega arith)
      & number j _ _ (omega arith)
      & nil
  payload-AreFields (cancel_order cancel) w =
      literal j _ _ (omega arith) (omega arith)
      & number j _ _ (omega arith)
      & number j _ _ (omega arith)
      & number j _ _ (omega arith)
      & nil
  payload-AreFields flush w = literal j _ _ (omega arith) (omega arith) & nil

  -- What the client encodes from a request, the server decodes to that request, when the words fit 64
  -- bits, the texts are ASCII and fit their fixed strings, and the datagram is not over the limit.
  pub decode-encode_request :
      (max_datagram_size : ℕ) (r : Request)
      → IsWireRequest r
      → length (encode j r) ≤ max_datagram_size
      → decode j max_datagram_size (encode j r) ≡ decoded r
  unfolding decode encode decode_document caught
  decode-encode_request max_datagram_size r w h = ground (
    arith,
    j.parse-dump (j.object (payload j r))
        (object-IsWritable j (payload j r) (payload-AreFields r w)),
    message_type-payload r,
    decode_typed-payload r w,
  )
