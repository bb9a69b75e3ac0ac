-- ===== src/MorfixQuickfix/Encode.antt =====
-- src/morfix_quickfix/src/codecs.cpp: the encoders, and the two codecs by message type.
use cpp_demo_build.Prelude.{Option, none, some, Bytes, codes, is_empty, if◌then◌else◌}
use cpp_demo_build.OrderEntry.Types.{RejectReason}
use cpp_demo_build.Lab.Charconv.{Fmt}
use cpp_demo_build.QuickfixFix.Message.{Message, new_message}
use cpp_demo_build.Ospec.Fields as spec
use cpp_demo_build.Ospec.B3.{
  normalize_side, normalize_ord_type, normalize_time_in_force, normalize_exec_type,
  normalize_ord_status, normalize_reject_reason,
}
use cpp_demo_build.Morfix.Messages as fix
use cpp_demo_build.MorfixQuickfix.Fields.{set_uint, set_text, set_char, set_optional_uint}

abbrev pub new_order_single_msg_type : Bytes
new_order_single_msg_type = codes "D"

abbrev pub order_cancel_replace_request_msg_type : Bytes
order_cancel_replace_request_msg_type = codes "G"

abbrev pub order_cancel_request_msg_type : Bytes
order_cancel_request_msg_type = codes "F"

abbrev pub execution_report_msg_type : Bytes
execution_report_msg_type = codes "8"

abbrev pub order_cancel_reject_msg_type : Bytes
order_cancel_reject_msg_type = codes "9"

module _ (fmt : Fmt) where
  -- `if (event.reject_reason) set_field(...)`
  unfoldable pub set_reject_reason : Message → Option RejectReason → Message
  set_reject_reason m none = m
  set_reject_reason m (some reason) =
      set_uint fmt m spec.cxl_rej_reason (normalize_reject_reason reason)

  -- `if (!event.text.empty()) set_field(...)`
  unfoldable pub set_nonempty_text : Message → Bytes → Message
  set_nonempty_text m s = if is_empty s then m else set_text fmt m spec.text s

  unfoldable pub encode_new_order_single : fix.NewOrderSingle → Message
  encode_new_order_single request =
      let m0 = new_message new_order_single_msg_type in
      let m1 = set_uint fmt m0 spec.account request.account in
      let m2 = set_uint fmt m1 spec.cl_ord_id request.cl_ord_id in
      let m3 = set_uint fmt m2 spec.security_id request.security_id in
      let m4 = set_text fmt m3 spec.symbol request.symbol in
      let m5 = set_text fmt m4 spec.security_exchange request.security_exchange in
      let m6 = set_char m5 spec.side (normalize_side request.side) in
      let m7 = set_char m6 spec.ord_type (normalize_ord_type request.ord_type) in
      let m8 = set_char m7 spec.time_in_force (normalize_time_in_force request.time_in_force) in
      let m9 = set_uint fmt m8 spec.order_qty request.order_qty in
      set_uint fmt m9 spec.price request.price

  unfoldable pub encode_order_cancel_replace_request : fix.OrderCancelReplaceRequest → Message
  encode_order_cancel_replace_request request =
      let m0 = new_message order_cancel_replace_request_msg_type in
      let m1 = set_uint fmt m0 spec.account request.account in
      let m2 = set_uint fmt m1 spec.cl_ord_id request.cl_ord_id in
      let m3 = set_uint fmt m2 spec.orig_cl_ord_id request.orig_cl_ord_id in
      let m4 = set_uint fmt m3 spec.security_id request.security_id in
      let m5 = set_text fmt m4 spec.symbol request.symbol in
      let m6 = set_text fmt m5 spec.security_exchange request.security_exchange in
      let m7 = set_char m6 spec.side (normalize_side request.side) in
      let m8 = set_char m7 spec.ord_type (normalize_ord_type request.ord_type) in
      let m9 = set_char m8 spec.time_in_force (normalize_time_in_force request.time_in_force) in
      let m10 = set_uint fmt m9 spec.order_qty request.order_qty in
      set_uint fmt m10 spec.price request.price

  unfoldable pub encode_order_cancel_request : fix.OrderCancelRequest → Message
  encode_order_cancel_request request =
      let m0 = new_message order_cancel_request_msg_type in
      let m1 = set_uint fmt m0 spec.account request.account in
      let m2 = set_uint fmt m1 spec.cl_ord_id request.cl_ord_id in
      set_uint fmt m2 spec.orig_cl_ord_id request.orig_cl_ord_id

  unfoldable pub encode_execution_report : fix.ExecutionReport → Message
  encode_execution_report event =
      let m0 = new_message execution_report_msg_type in
      let m1 = set_uint fmt m0 spec.account event.account in
      let m2 = set_uint fmt m1 spec.cl_ord_id event.cl_ord_id in
      let m3 = set_optional_uint fmt m2 spec.orig_cl_ord_id event.orig_cl_ord_id in
      let m4 = set_uint fmt m3 spec.order_id event.order_id in
      let m5 = set_uint fmt m4 spec.exec_id event.exec_id in
      let m6 = set_uint fmt m5 spec.security_id event.security_id in
      let m7 = set_text fmt m6 spec.symbol event.symbol in
      let m8 = set_text fmt m7 spec.security_exchange event.security_exchange in
      let m9 = set_char m8 spec.side (normalize_side event.side) in
      let m10 = set_char m9 spec.ord_type (normalize_ord_type event.ord_type) in
      let m11 = set_char m10 spec.time_in_force (normalize_time_in_force event.time_in_force) in
      let m12 = set_char m11 spec.exec_type (normalize_exec_type event.exec_type) in
      let m13 = set_char m12 spec.ord_status (normalize_ord_status event.ord_status) in
      let m14 = set_uint fmt m13 spec.order_qty event.order_qty in
      let m15 = set_uint fmt m14 spec.cum_qty event.cum_qty in
      let m16 = set_uint fmt m15 spec.leaves_qty event.leaves_qty in
      let m17 = set_optional_uint fmt m16 spec.last_qty event.last_qty in
      let m18 = set_optional_uint fmt m17 spec.last_px event.last_px in
      let m19 = set_optional_uint fmt m18 spec.avg_px event.avg_px in
      let m20 = set_uint fmt m19 spec.transact_time event.transact_time in
      let m21 = set_reject_reason m20 event.reject_reason in set_nonempty_text m21 event.text

  unfoldable pub encode_order_cancel_reject : fix.OrderCancelReject → Message
  encode_order_cancel_reject event =
      let m0 = new_message order_cancel_reject_msg_type in
      let m1 = set_uint fmt m0 spec.account event.account in
      let m2 = set_uint fmt m1 spec.cl_ord_id event.cl_ord_id in
      let m3 = set_uint fmt m2 spec.orig_cl_ord_id event.orig_cl_ord_id in
      let m4 = set_uint fmt m3 spec.cxl_rej_reason (normalize_reject_reason event.reject_reason) in
      let m5 = set_uint fmt m4 spec.transact_time event.transact_time in
      set_nonempty_text m5 event.text
