-- ===== src/MorfixQuickfix/Codecs/Orders.antt =====
-- A message that carries the fields of an order is decoded to that order.
use cpp_demo_build.Prelude.{◌<◌, ◌≤◌, ◌≡◌, ◌≢◌, refl, some, [], ◌∷◌, length, u64_mod}
use cpp_demo_build.Prelude.Result.{ok}
use cpp_demo_build.Lab.Charconv.{Fmt}
use cpp_demo_build.QuickfixFix.Message.{Message, get, set}
use cpp_demo_build.Ospec.Fields as spec
use cpp_demo_build.Ospec.B3.{normalize_side, normalize_ord_type, normalize_time_in_force}
use cpp_demo_build.Ospec.B3.RoundTrip.{
  parse_side-normalize_side, parse_ord_type-normalize_ord_type,
  parse_time_in_force-normalize_time_in_force,
}
use cpp_demo_build.Morfix.Messages as fix
use cpp_demo_build.MorfixQuickfix.Fields.{
  set_uint, set_text, set_char, get_required_uint-printed, get_required_fixed-printed,
  get_required_char-set,
}
use cpp_demo_build.MorfixQuickfix.Decode.{
  decode_new_order_single, decode_order_cancel_replace_request, decode_order_cancel_request,
}
use cpp_demo_build.MorfixQuickfix.Encode.{
  encode_new_order_single, encode_order_cancel_replace_request, encode_order_cancel_request,
}

-- What the C++ types and the codec ask of an order: words of 64 bits, and texts that are not empty
-- and fit their fixed strings.
pub record IsWireOrder (r : fix.NewOrderSingle) : Type 0 where
  pub account_fits : r.account < u64_mod
  pub cl_ord_id_fits : r.cl_ord_id < u64_mod
  pub security_id_fits : r.security_id < u64_mod
  pub order_qty_fits : r.order_qty < u64_mod
  pub price_fits : r.price < u64_mod
  pub symbol_some : r.symbol ≢ []
  pub symbol_fits : length r.symbol ≤ 16
  pub security_exchange_some : r.security_exchange ≢ []
  pub security_exchange_fits : length r.security_exchange ≤ 8

-- The order inside a replace request.
abbrev pub order_of : fix.OrderCancelReplaceRequest → fix.NewOrderSingle
order_of r = record {
  account = r.account;
  cl_ord_id = r.cl_ord_id;
  security_id = r.security_id;
  symbol = r.symbol;
  security_exchange = r.security_exchange;
  side = r.side;
  ord_type = r.ord_type;
  time_in_force = r.time_in_force;
  order_qty = r.order_qty;
  price = r.price;
}

module _ (fmt : Fmt) where
  pub record CarriesOrder (m : Message) (r : fix.NewOrderSingle) : Type 0 where
    pub account : get m 1 ≡ some (fmt.format_uint r.account)
    pub cl_ord_id : get m 11 ≡ some (fmt.format_uint r.cl_ord_id)
    pub security_id : get m 48 ≡ some (fmt.format_uint r.security_id)
    pub symbol : get m 55 ≡ some (fmt.format_text r.symbol)
    pub security_exchange : get m 207 ≡ some (fmt.format_text r.security_exchange)
    pub side : get m 54 ≡ some (normalize_side r.side ∷ [])
    pub ord_type : get m 40 ≡ some (normalize_ord_type r.ord_type ∷ [])
    pub time_in_force : get m 59 ≡ some (normalize_time_in_force r.time_in_force ∷ [])
    pub order_qty : get m 38 ≡ some (fmt.format_uint r.order_qty)
    pub price : get m 44 ≡ some (fmt.format_uint r.price)

  pub decode_new_order_single-carried :
      (m : Message) (r : fix.NewOrderSingle)
      → CarriesOrder m r
      → IsWireOrder r
      → decode_new_order_single m ≡ ok r
  unfolding decode_new_order_single
  decode_new_order_single-carried m r c v =
      rw
        (
          get_required_char-set m spec.side (normalize_side r.side) c.side,
          parse_side-normalize_side r.side,
          get_required_char-set m spec.ord_type (normalize_ord_type r.ord_type) c.ord_type,
          parse_ord_type-normalize_ord_type r.ord_type,
          get_required_char-set m spec.time_in_force (normalize_time_in_force r.time_in_force)
              c.time_in_force,
          parse_time_in_force-normalize_time_in_force r.time_in_force,
          get_required_uint-printed fmt m spec.account u64_mod r.account c.account v.account_fits,
          get_required_uint-printed fmt m spec.cl_ord_id u64_mod r.cl_ord_id c.cl_ord_id
              v.cl_ord_id_fits,
          get_required_uint-printed fmt m spec.security_id u64_mod r.security_id c.security_id
              v.security_id_fits,
          get_required_fixed-printed fmt m spec.symbol 16 r.symbol c.symbol v.symbol_some
              v.symbol_fits,
          get_required_fixed-printed fmt m spec.security_exchange 8 r.security_exchange
              c.security_exchange v.security_exchange_some v.security_exchange_fits,
          get_required_uint-printed fmt m spec.order_qty u64_mod r.order_qty c.order_qty
              v.order_qty_fits,
          get_required_uint-printed fmt m spec.price u64_mod r.price c.price v.price_fits,
        )
        refl

  encode_new_order_single-CarriesOrder :
      (r : fix.NewOrderSingle) → CarriesOrder (encode_new_order_single fmt r) r
  unfolding encode_new_order_single set_uint set_text set_char set get
  encode_new_order_single-CarriesOrder r = record {
    account = refl;
    cl_ord_id = refl;
    security_id = refl;
    symbol = refl;
    security_exchange = refl;
    side = refl;
    ord_type = refl;
    time_in_force = refl;
    order_qty = refl;
    price = refl;
  }

  encode_order_cancel_replace_request-CarriesOrder :
      (r : fix.OrderCancelReplaceRequest)
      → CarriesOrder (encode_order_cancel_replace_request fmt r) (order_of r)
  unfolding encode_order_cancel_replace_request set_uint set_text set_char set get
  encode_order_cancel_replace_request-CarriesOrder r = record {
    account = refl;
    cl_ord_id = refl;
    security_id = refl;
    symbol = refl;
    security_exchange = refl;
    side = refl;
    ord_type = refl;
    time_in_force = refl;
    order_qty = refl;
    price = refl;
  }

  pub decode-encode_new_order_single :
      (r : fix.NewOrderSingle)
      → IsWireOrder r
      → decode_new_order_single (encode_new_order_single fmt r) ≡ ok r
  decode-encode_new_order_single r v =
      decode_new_order_single-carried _ r (encode_new_order_single-CarriesOrder r) v

  orig_cl_ord_id-replace :
      (r : fix.OrderCancelReplaceRequest)
      → get (encode_order_cancel_replace_request fmt r) 41 ≡ some (fmt.format_uint r.orig_cl_ord_id)
  unfolding encode_order_cancel_replace_request set_uint set_text set_char set get
  orig_cl_ord_id-replace r = refl

  pub decode-encode_order_cancel_replace_request :
      (r : fix.OrderCancelReplaceRequest)
      → IsWireOrder (order_of r)
      → r.orig_cl_ord_id < u64_mod
      → decode_order_cancel_replace_request (encode_order_cancel_replace_request fmt r) ≡ ok r
  unfolding decode_order_cancel_replace_request
  decode-encode_order_cancel_replace_request r v h =
      rw
        (
          decode_new_order_single-carried (encode_order_cancel_replace_request fmt r) (order_of r)
              (encode_order_cancel_replace_request-CarriesOrder r) v,
          get_required_uint-printed fmt (encode_order_cancel_replace_request fmt r)
              spec.orig_cl_ord_id u64_mod r.orig_cl_ord_id (orig_cl_ord_id-replace r) h,
        )
        refl

  cancel_fields :
      (r : fix.OrderCancelRequest)
      → (let m = encode_order_cancel_request fmt r in
          (get m 1 ≡ some (fmt.format_uint r.account))
          × (get m 11 ≡ some (fmt.format_uint r.cl_ord_id))
          × (get m 41 ≡ some (fmt.format_uint r.orig_cl_ord_id)))
  unfolding encode_order_cancel_request set_uint set get
  cancel_fields r = (refl, refl, refl)

  pub decode-encode_order_cancel_request :
      (r : fix.OrderCancelRequest)
      → r.account < u64_mod
      → r.cl_ord_id < u64_mod
      → r.orig_cl_ord_id < u64_mod
      → decode_order_cancel_request (encode_order_cancel_request fmt r) ≡ ok r
  unfolding decode_order_cancel_request
  decode-encode_order_cancel_request r a b c =
      let m = encode_order_cancel_request fmt r in
      rw
        (
          get_required_uint-printed fmt m spec.account u64_mod r.account (cancel_fields r).0 a,
          get_required_uint-printed fmt m spec.cl_ord_id u64_mod r.cl_ord_id (cancel_fields r).1 b,
          get_required_uint-printed fmt m spec.orig_cl_ord_id u64_mod r.orig_cl_ord_id
              (cancel_fields r).2 c,
        )
        refl
