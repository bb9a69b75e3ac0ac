-- ===== src/MorfixQuickfix/Codecs/Events.antt =====
-- A message that carries the fields of an event is decoded to that event.
use cpp_demo_build.Prelude.{
  ℕ, ◌<◌, ◌≤◌, ◌≡◌, ◌≢◌, refl, Option, none, some, [], ◌∷◌, Bytes, length, u64_mod,
}
use cpp_demo_build.Prelude.Result.{ok}
use cpp_demo_build.OrderEntry.Types.{RejectReason}
use cpp_demo_build.Lab.Charconv.{Fmt}
use cpp_demo_build.QuickfixFix.Message.{Message, get}
use cpp_demo_build.Ospec.Fields as spec
use cpp_demo_build.Ospec.B3.{
  normalize_side, normalize_ord_type, normalize_time_in_force, normalize_exec_type,
  normalize_ord_status, normalize_reject_reason,
}
use cpp_demo_build.Ospec.B3.RoundTrip.{
  parse_side-normalize_side, parse_ord_type-normalize_ord_type,
  parse_time_in_force-normalize_time_in_force, parse_exec_type-normalize_exec_type,
  parse_ord_status-normalize_ord_status, parse_reject_reason-normalize_reject_reason, recovered,
  normalize_reject_reason-lt,
}
use cpp_demo_build.Morfix.Messages as fix
use cpp_demo_build.MorfixQuickfix.Fields.{
  get_required_uint, get_required_uint-printed, get_required_fixed-printed, get_required_char-set,
  get_optional, get_optional-printed, get_optional_text-printed, FitsOption, u16_mod,
}
use cpp_demo_build.MorfixQuickfix.Decode.{
  decode_execution_report, decode_order_cancel_reject, parse_optional_reject_reason, or_empty,
}
use cpp_demo_build.MorfixQuickfix.Encode.{encode_execution_report, encode_order_cancel_reject}
use cpp_demo_build.MorfixQuickfix.Codecs.Reports.{
  CarriesReport, encode_execution_report-CarriesReport, printed_reason, CarriesReject,
  encode_order_cancel_reject-CarriesReject,
}

-- What the C++ types and the codec ask of a report: words of 64 bits, and texts that are not empty
-- and fit their fixed strings.
pub record IsWireReport (e : fix.ExecutionReport) : Type 0 where
  pub account_fits : e.account < u64_mod
  pub cl_ord_id_fits : e.cl_ord_id < u64_mod
  pub orig_cl_ord_id_fits : FitsOption e.orig_cl_ord_id
  pub order_id_fits : e.order_id < u64_mod
  pub exec_id_fits : e.exec_id < u64_mod
  pub security_id_fits : e.security_id < u64_mod
  pub order_qty_fits : e.order_qty < u64_mod
  pub cum_qty_fits : e.cum_qty < u64_mod
  pub leaves_qty_fits : e.leaves_qty < u64_mod
  pub last_qty_fits : FitsOption e.last_qty
  pub last_px_fits : FitsOption e.last_px
  pub avg_px_fits : FitsOption e.avg_px
  pub transact_time_fits : e.transact_time < u64_mod
  pub symbol_some : e.symbol ≢ []
  pub symbol_fits : length e.symbol ≤ 16
  pub security_exchange_some : e.security_exchange ≢ []
  pub security_exchange_fits : length e.security_exchange ≤ 8

pub record IsWireReject (e : fix.OrderCancelReject) : Type 0 where
  pub account_fits : e.account < u64_mod
  pub cl_ord_id_fits : e.cl_ord_id < u64_mod
  pub orig_cl_ord_id_fits : e.orig_cl_ord_id < u64_mod
  pub transact_time_fits : e.transact_time < u64_mod

abbrev pub recovered_optional : Option RejectReason → Option RejectReason
recovered_optional none = none
recovered_optional (some r) = some (recovered r)

-- The report with the reason that its code stands for.
abbrev pub recovered_report : fix.ExecutionReport → fix.ExecutionReport
recovered_report e = record e { reject_reason = recovered_optional e.reject_reason }

abbrev pub recovered_reject : fix.OrderCancelReject → fix.OrderCancelReject
recovered_reject e = record e { reject_reason = recovered e.reject_reason }

code_of : Option RejectReason → Option ℕ
code_of none = none
code_of (some r) = some (normalize_reject_reason r)

or_empty-text : (s : Bytes) → or_empty (elim s [ [] ↦ none | c ∷ t ↦ some (c ∷ t) ]) ≡ s
or_empty-text [] = refl
or_empty-text (c ∷ t) = refl

parse_optional-reason :
    (o : Option RejectReason) → parse_optional_reject_reason (code_of o) ≡ ok (recovered_optional o)
unfolding parse_optional_reject_reason code_of
parse_optional-reason none = refl
parse_optional-reason (some r) = rw (parse_reject_reason-normalize_reject_reason r) refl

module _ (fmt : Fmt) where
  get_reason :
      (m : Message) (o : Option RejectReason)
      → get m 102 ≡ printed_reason fmt o
      → get_optional (get_required_uint u16_mod) m spec.cxl_rej_reason ≡ ok (code_of o)
  unfolding get_optional code_of
  get_reason m none e = rw (e, get_optional) refl
  get_reason m (some r) e =
      rw (e, get_optional)
        (rw
          (get_required_uint-printed fmt m spec.cxl_rej_reason u16_mod (normalize_reject_reason r) e
            (normalize_reject_reason-lt r))
          refl)

  decode_execution_report-carried :
      (m : Message) (e : fix.ExecutionReport)
      → CarriesReport fmt m e
      → IsWireReport e
      → decode_execution_report m ≡ ok (recovered_report e)
  unfolding decode_execution_report
  decode_execution_report-carried m e c v =
      rw
        (
          get_required_char-set m spec.side (normalize_side e.side) c.side,
          parse_side-normalize_side e.side,
          get_required_char-set m spec.ord_type (normalize_ord_type e.ord_type) c.ord_type,
          parse_ord_type-normalize_ord_type e.ord_type,
          get_required_char-set m spec.time_in_force (normalize_time_in_force e.time_in_force)
              c.time_in_force,
          parse_time_in_force-normalize_time_in_force e.time_in_force,
          get_required_char-set m spec.exec_type (normalize_exec_type e.exec_type) c.exec_type,
          parse_exec_type-normalize_exec_type e.exec_type,
          get_required_char-set m spec.ord_status (normalize_ord_status e.ord_status) c.ord_status,
          parse_ord_status-normalize_ord_status e.ord_status,
          get_reason m e.reject_reason c.reject_reason,
          get_required_uint-printed fmt m spec.account u64_mod e.account c.account v.account_fits,
          get_required_uint-printed fmt m spec.cl_ord_id u64_mod e.cl_ord_id c.cl_ord_id
              v.cl_ord_id_fits,
          get_optional-printed fmt m spec.orig_cl_ord_id e.orig_cl_ord_id c.orig_cl_ord_id
              v.orig_cl_ord_id_fits,
          get_required_uint-printed fmt m spec.order_id u64_mod e.order_id c.order_id
              v.order_id_fits,
          get_required_uint-printed fmt m spec.exec_id u64_mod e.exec_id c.exec_id v.exec_id_fits,
          get_required_uint-printed fmt m spec.security_id u64_mod e.security_id c.security_id
              v.security_id_fits,
          get_required_fixed-printed fmt m spec.symbol 16 e.symbol c.symbol v.symbol_some
              v.symbol_fits,
          get_required_fixed-printed fmt m spec.security_exchange 8 e.security_exchange
              c.security_exchange v.security_exchange_some v.security_exchange_fits,
          get_required_uint-printed fmt m spec.order_qty u64_mod e.order_qty c.order_qty
              v.order_qty_fits,
          get_required_uint-printed fmt m spec.cum_qty u64_mod e.cum_qty c.cum_qty v.cum_qty_fits,
          get_required_uint-printed fmt m spec.leaves_qty u64_mod e.leaves_qty c.leaves_qty
              v.leaves_qty_fits,
          get_optional-printed fmt m spec.last_qty e.last_qty c.last_qty v.last_qty_fits,
          get_optional-printed fmt m spec.last_px e.last_px c.last_px v.last_px_fits,
          get_optional-printed fmt m spec.avg_px e.avg_px c.avg_px v.avg_px_fits,
          get_required_uint-printed fmt m spec.transact_time u64_mod e.transact_time c.transact_time
              v.transact_time_fits,
          get_optional_text-printed fmt m spec.text e.text c.text,
          parse_optional-reason e.reject_reason,
          or_empty-text e.text,
        )
        refl

  decode_order_cancel_reject-carried :
      (m : Message) (e : fix.OrderCancelReject)
      → CarriesReject fmt m e
      → IsWireReject e
      → decode_order_cancel_reject m ≡ ok (recovered_reject e)
  unfolding decode_order_cancel_reject
  decode_order_cancel_reject-carried m e c v =
      rw
        (
          get_required_uint-printed fmt m spec.cxl_rej_reason u16_mod
              (normalize_reject_reason e.reject_reason) c.reject_reason
              (normalize_reject_reason-lt e.reject_reason),
          parse_reject_reason-normalize_reject_reason e.reject_reason,
          get_required_uint-printed fmt m spec.account u64_mod e.account c.account v.account_fits,
          get_required_uint-printed fmt m spec.cl_ord_id u64_mod e.cl_ord_id c.cl_ord_id
              v.cl_ord_id_fits,
          get_required_uint-printed fmt m spec.orig_cl_ord_id u64_mod e.orig_cl_ord_id
              c.orig_cl_ord_id v.orig_cl_ord_id_fits,
          get_optional_text-printed fmt m spec.text e.text c.text,
          get_required_uint-printed fmt m spec.transact_time u64_mod e.transact_time c.transact_time
              v.transact_time_fits,
          or_empty-text e.text,
        )
        refl

  pub decode-encode_execution_report :
      (e : fix.ExecutionReport)
      → IsWireReport e
      → decode_execution_report (encode_execution_report fmt e) ≡ ok (recovered_report e)
  decode-encode_execution_report e v =
      decode_execution_report-carried _ e (encode_execution_report-CarriesReport fmt e) v

  pub decode-encode_order_cancel_reject :
      (e : fix.OrderCancelReject)
      → IsWireReject e
      → decode_order_cancel_reject (encode_order_cancel_reject fmt e) ≡ ok (recovered_reject e)
  decode-encode_order_cancel_reject e v =
      decode_order_cancel_reject-carried _ e (encode_order_cancel_reject-CarriesReject fmt e) v
