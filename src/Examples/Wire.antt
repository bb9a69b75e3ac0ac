-- ===== src/Examples/Wire.antt =====
-- The theorems of the wire protocol at concrete requests.
use cpp_demo_build.Prelude.{
  ◌≤◌, ◌≡◌, ◌≢◌, refl, none, some, [], ◌∷◌, ◌++◌, Bytes, codes, length, arith, eqb, true, false,
}
use cpp_demo_build.Lab.Json.{get_fixed}
use cpp_demo_build.OrderEntry.Types.{buy, sell, market, ioc}
use cpp_demo_build.OrderEntry.Messages.{new_order_single, NewOrderSingle}
use cpp_demo_build.OrderEntry.Session.{decoded, parser_error, on_request, send_packet}
use cpp_demo_build.OrderEntry.JsonDecoder.{
  decode, decode_new_order, get_required, get_optional, decode_or, decode_side, default_security_id,
  default_security_exchange, ord_type_from_price, time_in_force_from_price,
}
use cpp_demo_build.OrderEntry.JsonDecoder.WireTypes.{IsWireOrder}
use cpp_demo_build.OrderEntry.JsonDecoder.RoundTrip.{decode-encode_request}
use cpp_demo_build.OrderEntry.JsonDecoder.Errors.{decode-IsOrderly}
use cpp_demo_build.Prelude.Throws.{value}
use cpp_demo_build.OrderClient.JsonEncoder.{
  encode, payload, new_order_payload, encode_side, encode_ord_type, encode_time_in_force,
}
use cpp_demo_build.OrderClient.UdpSender.{UdpSender, Answers, send, send-not_Accepts}
use cpp_demo_build.OrderClient.Client.{send_request}
use cpp_demo_build.OrderClient.Client.Delivery.{send_request-delivered}
use cpp_demo_build.MarketData.Messages as md
use cpp_demo_build.MarketData.Types as md_types
use cpp_demo_build.MarketData.JsonEncoder as md_json
use cpp_demo_build.Mmd.Conversions.{to_mmd_message}
use cpp_demo_build.MmdJson.JsonEncoder as mmd_json
use cpp_demo_build.MmdJson.Agreement.{encode-to_mmd}
use cpp_demo_build.Examples.Fixtures.{limit_order}
use cpp_demo_build.Examples.Documents.{documents, Document, object, field, text, number, end, dump}

abbrev order : NewOrderSingle
order = limit_order 1 buy 100 11

order-IsWireOrder : IsWireOrder order
order-IsWireOrder = record {
  client_id_fits = omega arith;
  cl_ord_id_fits = omega arith;
  security_id_fits = omega arith;
  order_qty_fits = omega arith;
  price_fits = omega arith;
  symbol_fits = omega arith;
  exchange_fits = omega arith;
  symbol_ascii = omega arith;
  exchange_ascii = omega arith;
}

order_fits : length (encode documents (new_order_single order)) ≤ 65535
unfolding encode payload new_order_payload encode_side encode_ord_type encode_time_in_force dump
order_fits = omega arith

decode-encode_request_example :
    decode documents 65535 (encode documents (new_order_single order))
    ≡ decoded (new_order_single order)
decode-encode_request_example =
    decode-encode_request documents 65535 (new_order_single order) order-IsWireOrder order_fits

decode-IsOrderly_example :
    (reason : Bytes) × (parser_error (codes "datagram exceeds configured maximum size")
      ≡ parser_error reason)
unfolding decode
decode-IsOrderly_example =
    decode-IsOrderly documents 3 (codes "flush")
      (parser_error (codes "datagram exceeds configured maximum size")) refl

-- A document without an order type, a time in force, an exchange or a security.
abbrev short : Document
short = object (
    field (codes "client_id") (number 7) (
      field (codes "cl_ord_id") (number 1) (
        field (codes "symbol") (text (codes "PETR4")) (
          field (codes "side") (text (codes "sell"))
            (field (codes "order_qty") (number 5) (field (codes "price") (number 0) end))))))

abbrev short_order : NewOrderSingle
short_order = record {
  client_id = 7;
  cl_ord_id = 1;
  security_id = 0;
  symbol = codes "PETR4";
  security_exchange = codes "BVMF";
  side = sell;
  ord_type = market;
  time_in_force = ioc;
  order_qty = 5;
  price = 0;
}

short_decoded : decode_new_order documents short ≡ value short_order
unfolding decode_new_order get_required get_optional get_fixed decode_or decode_side
    default_security_id default_security_exchange ord_type_from_price time_in_force_from_price eqb
short_decoded = refl

abbrev sender : UdpSender
sender = record {
  config = record { address = codes "127.0.0.1"; port = 1234; max_datagram_size = 65535 };
  connected = false;
  datagrams = [];
}

abbrev no_trouble : Answers
no_trouble = record { address_error = none; open_error = none; send_error = none }

abbrev unreachable : Answers
unreachable = record {
  address_error = none;
  open_error = none;
  send_error = some (codes "unreachable");
}

send_request-delivered_example :
    (datagram : Bytes) × (send_request documents sender no_trouble (new_order_single order)
      ≡ (none, record sender { connected = true; datagrams = [] ++ datagram ∷ [] }))
    × (send_packet (decode documents 65535) datagram ≡ on_request (new_order_single order) ∷ [])
send_request-delivered_example =
    send_request-delivered documents sender no_trouble 65535 (new_order_single order)
      order-IsWireOrder (order_fits, (λ c. (refl, refl)), refl) (omega arith)

send-not_Accepts_example :
    ((send sender unreachable (codes "{}")).0 ≢ none)
    × ((send sender unreachable (codes "{}")).1.datagrams ≡ [])
send-not_Accepts_example = send-not_Accepts sender unreachable (codes "{}") (λ a. refused a.2)
  where
    refused : some (codes "unreachable") ≡ none → ⊥
    refused e = cc

abbrev update : md.Message
update = md.Message.mbo_book_update (record {
  security_id = 1;
  update_action = md_types.UpdateAction.change;
  side = md_types.Side.buy;
  resting_order_id = 0;
  price = some 10;
  quantity = some 50;
  previous_quantity = none;
  transact_time = 0;
})

encode-to_mmd_example :
    mmd_json.encode documents (to_mmd_message update) ≡ md_json.encode documents update
encode-to_mmd_example = encode-to_mmd documents update
