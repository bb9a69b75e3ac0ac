-- ===== src/MorfixQuickfix/Codecs/Reports.antt =====
-- Reports and cancel rejects: what the message of an event carries at each tag.
use cpp_demo_build.Prelude.{
  ℕ, ◌≡◌, refl, Option, none, some, [], ◌∷◌, Bytes, ◌==◌, if◌then◌else◌, arith,
}
use cpp_demo_build.OrderEntry.Types.{RejectReason}
use cpp_demo_build.Lab.Charconv.{Fmt}
use cpp_demo_build.QuickfixFix.Message.{Message, get, new_message, get-set}
use cpp_demo_build.Ospec.Fields as spec
use cpp_demo_build.Ospec.B3.{
  normalize_side, normalize_ord_type, normalize_time_in_force, normalize_exec_type,
  normalize_ord_status, normalize_reject_reason,
}
use cpp_demo_build.Morfix.Messages as fix
use cpp_demo_build.MorfixQuickfix.Fields.{set_uint, set_text, set_char, set_optional_uint}
use cpp_demo_build.MorfixQuickfix.Encode.{
  set_reject_reason, set_nonempty_text, encode_execution_report, encode_order_cancel_reject,
}

or_else : Option Bytes → Option Bytes → Option Bytes
or_else none y = y
or_else (some x) y = some x

or_else-none : (x : Option Bytes) → or_else x none ≡ x
unfolding or_else
or_else-none none = refl
or_else-none (some x) = refl

get-new_message : (msg_type : Bytes) (k : ℕ) → get (new_message msg_type) k ≡ none
unfolding get
get-new_message msg_type k = refl

get-set_char :
    (m : Message) (f : spec.FieldSpec) (c k : ℕ)
    → get (set_char m f c) k ≡ (if f.number == k then some (c ∷ []) else get m k)
unfolding set_char
get-set_char m f c k = get-set m f.number k (c ∷ [])

module _ (fmt : Fmt) where
  -- The printed form of an optional field, a reject reason and a text.
  abbrev pub printed : Option ℕ → Option Bytes
  printed o = elim o [ none ↦ none | some n ↦ some (fmt.format_uint n) ]

  abbrev pub printed_reason : Option RejectReason → Option Bytes
  printed_reason o = elim o [
    | none ↦ none
    | some r ↦ some (fmt.format_uint (normalize_reject_reason r))
  ]

  abbrev pub printed_text : Bytes → Option Bytes
  printed_text s = elim s [ [] ↦ none | c ∷ t ↦ some (fmt.format_text (c ∷ t)) ]

  get-set_uint :
      (m : Message) (f : spec.FieldSpec) (n k : ℕ)
      → get (set_uint fmt m f n) k ≡ (if f.number == k then some (fmt.format_uint n) else get m k)
  unfolding set_uint
  get-set_uint m f n k = get-set m f.number k (fmt.format_uint n)

  get-set_text :
      (m : Message) (f : spec.FieldSpec) (s : Bytes) (k : ℕ)
      → get (set_text fmt m f s) k ≡ (if f.number == k then some (fmt.format_text s) else get m k)
  unfolding set_text
  get-set_text m f s k = get-set m f.number k (fmt.format_text s)

  get-set_optional_uint :
      (m : Message) (f : spec.FieldSpec) (o : Option ℕ) (k : ℕ)
      → get (set_optional_uint fmt m f o) k
        ≡ (if f.number == k then or_else (printed o) (get m k) else get m k)
  unfolding set_optional_uint or_else
  get-set_optional_uint m f none k = ground arith
  get-set_optional_uint m f (some n) k = get-set_uint m f n k

  get-set_reject_reason :
      (m : Message) (o : Option RejectReason) (k : ℕ)
      → get (set_reject_reason fmt m o) k
        ≡ (if 102 == k then or_else (printed_reason o) (get m k) else get m k)
  unfolding set_reject_reason or_else
  get-set_reject_reason m none k = ground arith
  get-set_reject_reason m (some r) k =
      get-set_uint m spec.cxl_rej_reason (normalize_reject_reason r) k

  get-set_nonempty_text :
      (m : Message) (s : Bytes) (k : ℕ)
      → get (set_nonempty_text fmt m s) k
        ≡ (if 58 == k then or_else (printed_text s) (get m k) else get m k)
  unfolding set_nonempty_text or_else
  get-set_nonempty_text m [] k = ground arith
  get-set_nonempty_text m (c ∷ t) k = get-set_text m spec.text (c ∷ t) k

  ruleset field_laws = (
    get-set_uint, get-set_text, get-set_char, get-set_optional_uint, get-set_reject_reason,
    get-set_nonempty_text, get-new_message, or_else-none,
  )

  pub record CarriesReport (m : Message) (e : fix.ExecutionReport) : Type 0 where
    pub account : get m 1 ≡ some (fmt.format_uint e.account)
    pub cl_ord_id : get m 11 ≡ some (fmt.format_uint e.cl_ord_id)
    pub orig_cl_ord_id : get m 41 ≡ printed e.orig_cl_ord_id
    pub order_id : get m 37 ≡ some (fmt.format_uint e.order_id)
    pub exec_id : get m 17 ≡ some (fmt.format_uint e.exec_id)
    pub security_id : get m 48 ≡ some (fmt.format_uint e.security_id)
    pub symbol : get m 55 ≡ some (fmt.format_text e.symbol)
    pub security_exchange : get m 207 ≡ some (fmt.format_text e.security_exchange)
    pub side : get m 54 ≡ some (normalize_side e.side ∷ [])
    pub ord_type : get m 40 ≡ some (normalize_ord_type e.ord_type ∷ [])
    pub time_in_force : get m 59 ≡ some (normalize_time_in_force e.time_in_force ∷ [])
    pub exec_type : get m 150 ≡ some (normalize_exec_type e.exec_type ∷ [])
    pub ord_status : get m 39 ≡ some (normalize_ord_status e.ord_status ∷ [])
    pub order_qty : get m 38 ≡ some (fmt.format_uint e.order_qty)
    pub cum_qty : get m 14 ≡ some (fmt.format_uint e.cum_qty)
    pub leaves_qty : get m 151 ≡ some (fmt.format_uint e.leaves_qty)
    pub last_qty : get m 32 ≡ printed e.last_qty
    pub last_px : get m 31 ≡ printed e.last_px
    pub avg_px : get m 6 ≡ printed e.avg_px
    pub transact_time : get m 60 ≡ some (fmt.format_uint e.transact_time)
    pub reject_reason : get m 102 ≡ printed_reason e.reject_reason
    pub text : get m 58 ≡ printed_text e.text

  pub encode_execution_report-CarriesReport :
      (e : fix.ExecutionReport) → CarriesReport (encode_execution_report fmt e) e
  unfolding encode_execution_report
  encode_execution_report-CarriesReport e = record {
    account = simp field_laws;
    cl_ord_id = simp field_laws;
    orig_cl_ord_id = simp field_laws;
    order_id = simp field_laws;
    exec_id = simp field_laws;
    security_id = simp field_laws;
    symbol = simp field_laws;
    security_exchange = simp field_laws;
    side = simp field_laws;
    ord_type = simp field_laws;
    time_in_force = simp field_laws;
    exec_type = simp field_laws;
    ord_status = simp field_laws;
    order_qty = simp field_laws;
    cum_qty = simp field_laws;
    leaves_qty = simp field_laws;
    last_qty = simp field_laws;
    last_px = simp field_laws;
    avg_px = simp field_laws;
    transact_time = simp field_laws;
    reject_reason = simp field_laws;
    text = simp field_laws;
  }

  pub record CarriesReject (m : Message) (e : fix.OrderCancelReject) : Type 0 where
    pub account : get m 1 ≡ some (fmt.format_uint e.account)
    pub cl_ord_id : get m 11 ≡ some (fmt.format_uint e.cl_ord_id)
    pub orig_cl_ord_id : get m 41 ≡ some (fmt.format_uint e.orig_cl_ord_id)
    pub reject_reason : get m 102 ≡ some (fmt.format_uint (normalize_reject_reason e.reject_reason))
    pub transact_time : get m 60 ≡ some (fmt.format_uint e.transact_time)
    pub text : get m 58 ≡ printed_text e.text

  pub encode_order_cancel_reject-CarriesReject :
      (e : fix.OrderCancelReject) → CarriesReject (encode_order_cancel_reject fmt e) e
  unfolding encode_order_cancel_reject
  encode_order_cancel_reject-CarriesReject e = record {
    account = simp field_laws;
    cl_ord_id = simp field_laws;
    orig_cl_ord_id = simp field_laws;
    reject_reason = simp field_laws;
    transact_time = simp field_laws;
    text = simp field_laws;
  }
