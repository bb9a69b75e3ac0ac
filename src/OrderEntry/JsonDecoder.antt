-- ===== src/OrderEntry/JsonDecoder.antt =====
-- src/order_entry/src/json_decoder.cpp: the order-entry wire protocol, one JSON object for a datagram.
pub mod Members
pub mod Errors
pub mod WireTypes
pub mod RoundTrip
use cpp_demo_build.Prelude.{
  ℕ, Bool, true, false, Option, none, some, Bytes, codes, ◌++◌, eqb, ltb, length, ◌==◌,
  if◌then◌else◌,
}
use cpp_demo_build.Prelude.Throws.{Throws, value, threw, ◌>>=◌}
use cpp_demo_build.Lab.Json.{Json, get_fixed}
use cpp_demo_build.OrderEntry.Types.{
  Side, buy, sell, OrdType, market, limit, TimeInForce, day, ioc, SecurityExchange, SecurityId,
  Symbol, Price,
}
use cpp_demo_build.OrderEntry.Messages.{
  NewOrderSingle, ReplaceOrder, CancelOrder, Request, new_order_single, replace_order, cancel_order,
  flush,
}
use cpp_demo_build.OrderEntry.Session.{Decoded, decoded, failed, parser_error}

abbrev pub symbol_size : ℕ
symbol_size = 16

abbrev pub exchange_size : ℕ
exchange_size = 8

unfoldable pub default_security_exchange : SecurityExchange
default_security_exchange = codes "BVMF"

unfoldable pub default_security_id : Symbol → SecurityId
default_security_id symbol = 0

unfoldable pub ord_type_from_price : Price → OrdType
ord_type_from_price price = if price == 0 then market else limit

unfoldable pub time_in_force_from_price : Price → TimeInForce
time_in_force_from_price price = if price == 0 then ioc else day

unfoldable pub decode_side : Bytes → Throws Side
unfolding eqb
decode_side field =
    if eqb field (codes "buy")
    then value buy
    else if eqb field (codes "sell")
    then value sell
    else threw (codes "invalid side '" ++ field ++ codes "'")

unfoldable pub decode_ord_type : Bytes → Throws OrdType
unfolding eqb
decode_ord_type field =
    if eqb field (codes "market")
    then value market
    else if eqb field (codes "limit")
    then value limit
    else threw (codes "invalid ord_type '" ++ field ++ codes "'")

unfoldable pub decode_time_in_force : Bytes → Throws TimeInForce
unfolding eqb
decode_time_in_force field =
    if eqb field (codes "day")
    then value day
    else if eqb field (codes "ioc")
    then value ioc
    else threw (codes "invalid time_in_force '" ++ field ++ codes "'")

-- `catch (const std::exception& ex)`
unfoldable pub caught : Throws Decoded → Decoded
caught (value result) = result
caught (threw what) = failed (parser_error (codes "json decode failed: " ++ what))

module _ (j : Json) where
  -- `get_required<T>`, with the conversion of T.
  unfoldable pub get_required : {A : Type 0} → (j.Value → Throws A) → j.Value → Bytes → Throws A
  get_required get payload field_name = j.at payload field_name >>= get

  unfoldable pub get_optional : {A : Type 0} → (j.Value → Throws A) → j.Value → Bytes → A → Throws A
  get_optional get payload field_name fallback = elim (j.find payload field_name) [
    | some it ↦ get it
    | none ↦ value fallback
  ]

  -- `payload.contains(name) ? decode(get_required<std::string>(payload, name)) : fallback`
  unfoldable pub decode_or : {A : Type 0} → (Bytes → Throws A) → j.Value → Bytes → A → Throws A
  decode_or decode payload field_name fallback = elim (j.find payload field_name) [
    | some _ ↦ get_required j.get_string payload field_name >>= decode
    | none ↦ value fallback
  ]

  unfoldable pub decode_new_order : j.Value → Throws NewOrderSingle
  decode_new_order payload = do
    symbol ← get_required (get_fixed j symbol_size) payload (codes "symbol")
    price ← get_required j.get_number payload (codes "price")
    client_id ← get_required j.get_number payload (codes "client_id")
    cl_ord_id ← get_required j.get_number payload (codes "cl_ord_id")
    security_id ←
        get_optional j.get_number payload (codes "security_id") (default_security_id symbol)
    security_exchange ←
        get_optional (get_fixed j exchange_size) payload (codes "security_exchange")
          default_security_exchange
    side ← get_required j.get_string payload (codes "side") >>= decode_side
    ord_type ← decode_or decode_ord_type payload (codes "ord_type") (ord_type_from_price price)
    time_in_force ←
        decode_or decode_time_in_force payload (codes "time_in_force")
          (time_in_force_from_price price)
    order_qty ← get_required j.get_number payload (codes "order_qty")
    value (record {
      client_id = client_id;
      cl_ord_id = cl_ord_id;
      security_id = security_id;
      symbol = symbol;
      security_exchange = security_exchange;
      side = side;
      ord_type = ord_type;
      time_in_force = time_in_force;
      order_qty = order_qty;
      price = price;
    })

  unfoldable pub decode_replace_order : j.Value → Throws ReplaceOrder
  decode_replace_order payload = do
    symbol ← get_required (get_fixed j symbol_size) payload (codes "symbol")
    price ← get_required j.get_number payload (codes "price")
    client_id ← get_required j.get_number payload (codes "client_id")
    cl_ord_id ← get_required j.get_number payload (codes "cl_ord_id")
    orig_cl_ord_id ← get_required j.get_number payload (codes "orig_cl_ord_id")
    security_id ←
        get_optional j.get_number payload (codes "security_id") (default_security_id symbol)
    security_exchange ←
        get_optional (get_fixed j exchange_size) payload (codes "security_exchange")
          default_security_exchange
    side ← get_required j.get_string payload (codes "side") >>= decode_side
    ord_type ← decode_or decode_ord_type payload (codes "ord_type") (ord_type_from_price price)
    time_in_force ←
        decode_or decode_time_in_force payload (codes "time_in_force")
          (time_in_force_from_price price)
    order_qty ← get_required j.get_number payload (codes "order_qty")
    value (record {
      client_id = client_id;
      cl_ord_id = cl_ord_id;
      orig_cl_ord_id = orig_cl_ord_id;
      security_id = security_id;
      symbol = symbol;
      security_exchange = security_exchange;
      side = side;
      ord_type = ord_type;
      time_in_force = time_in_force;
      order_qty = order_qty;
      price = price;
    })

  unfoldable pub decode_cancel_order : j.Value → Throws CancelOrder
  decode_cancel_order payload = do
    client_id ← get_required j.get_number payload (codes "client_id")
    cl_ord_id ← get_required j.get_number payload (codes "cl_ord_id")
    orig_cl_ord_id ← get_required j.get_number payload (codes "orig_cl_ord_id")
    value (record { client_id = client_id; cl_ord_id = cl_ord_id; orig_cl_ord_id = orig_cl_ord_id })

  -- The dispatch on the message type.
  unfoldable pub decode_typed : Bytes → j.Value → Throws Decoded
  decode_typed message_type document =
      if eqb message_type (codes "new_order_single")
      then (do order ← decode_new_order document; value (decoded (new_order_single order)))
      else if eqb message_type (codes "replace_order")
      then (do replace ← decode_replace_order document; value (decoded (replace_order replace)))
      else if eqb message_type (codes "cancel_order")
      then (do cancel ← decode_cancel_order document; value (decoded (cancel_order cancel)))
      else if eqb message_type (codes "flush")
      then value (decoded flush)
      else value
          (failed (parser_error (codes "unknown message_type '" ++ message_type ++ codes "'")))

  unfoldable pub decode_document : Bytes → Throws Decoded
  decode_document payload = do
    document ← j.parse payload
    message_type ← get_required j.get_string document (codes "message_type")
    decode_typed message_type document

  unfoldable pub decode : ℕ → Bytes → Decoded
  decode max_datagram_size payload =
      if ltb max_datagram_size (length payload)
      then failed (parser_error (codes "datagram exceeds configured maximum size"))
      else caught (decode_document payload)
