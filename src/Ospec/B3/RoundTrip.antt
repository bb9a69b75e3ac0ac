-- ===== src/Ospec/B3/RoundTrip.antt =====
-- Each parser of src/ospec/src/b3.cpp is the inverse of its `normalize`, but for one reject reason.
use cpp_demo_build.Prelude.{ℕ, ◌≡◌, ◌↔◌, refl, subst, arith, ◌<◌, ◌^◌}
use cpp_demo_build.Prelude.Result.{ok}
use cpp_demo_build.OrderEntry.Types as oe
use cpp_demo_build.Ospec.B3.{
  normalize_side, parse_side, normalize_ord_type, parse_ord_type, normalize_time_in_force,
  parse_time_in_force, normalize_exec_type, parse_exec_type, normalize_ord_status, parse_ord_status,
  normalize_reject_reason, parse_reject_reason,
}

pub parse_side-normalize_side : (x : oe.Side) → parse_side (normalize_side x) ≡ ok x
unfolding parse_side normalize_side
parse_side-normalize_side oe.Side.buy = refl
parse_side-normalize_side oe.Side.sell = refl

normalize_side-parse_side : (v : ℕ) (x : oe.Side) → parse_side v ≡ ok x → normalize_side x ≡ v
unfolding parse_side normalize_side
normalize_side-parse_side v oe.Side.buy h = ground arith
normalize_side-parse_side v oe.Side.sell h = ground arith

pub parse_ord_type-normalize_ord_type :
    (x : oe.OrdType) → parse_ord_type (normalize_ord_type x) ≡ ok x
unfolding parse_ord_type normalize_ord_type
parse_ord_type-normalize_ord_type oe.OrdType.market = refl
parse_ord_type-normalize_ord_type oe.OrdType.limit = refl

normalize_ord_type-parse_ord_type :
    (v : ℕ) (x : oe.OrdType) → parse_ord_type v ≡ ok x → normalize_ord_type x ≡ v
unfolding parse_ord_type normalize_ord_type
normalize_ord_type-parse_ord_type v oe.OrdType.market h = ground arith
normalize_ord_type-parse_ord_type v oe.OrdType.limit h = ground arith

pub parse_time_in_force-normalize_time_in_force :
    (x : oe.TimeInForce) → parse_time_in_force (normalize_time_in_force x) ≡ ok x
unfolding parse_time_in_force normalize_time_in_force
parse_time_in_force-normalize_time_in_force oe.TimeInForce.day = refl
parse_time_in_force-normalize_time_in_force oe.TimeInForce.ioc = refl

normalize_time_in_force-parse_time_in_force :
    (v : ℕ) (x : oe.TimeInForce) → parse_time_in_force v ≡ ok x → normalize_time_in_force x ≡ v
unfolding parse_time_in_force normalize_time_in_force
normalize_time_in_force-parse_time_in_force v oe.TimeInForce.day h = ground arith
normalize_time_in_force-parse_time_in_force v oe.TimeInForce.ioc h = ground arith

pub parse_exec_type-normalize_exec_type :
    (x : oe.ExecType) → parse_exec_type (normalize_exec_type x) ≡ ok x
unfolding parse_exec_type normalize_exec_type
parse_exec_type-normalize_exec_type oe.ExecType.new_order = refl
parse_exec_type-normalize_exec_type oe.ExecType.replaced = refl
parse_exec_type-normalize_exec_type oe.ExecType.canceled = refl
parse_exec_type-normalize_exec_type oe.ExecType.trade = refl
parse_exec_type-normalize_exec_type oe.ExecType.rejected = refl
parse_exec_type-normalize_exec_type oe.ExecType.expired = refl

normalize_exec_type-parse_exec_type :
    (v : ℕ) (x : oe.ExecType) → parse_exec_type v ≡ ok x → normalize_exec_type x ≡ v
unfolding parse_exec_type normalize_exec_type
normalize_exec_type-parse_exec_type v oe.ExecType.new_order h = ground arith
normalize_exec_type-parse_exec_type v oe.ExecType.replaced h = ground arith
normalize_exec_type-parse_exec_type v oe.ExecType.canceled h = ground arith
normalize_exec_type-parse_exec_type v oe.ExecType.trade h = ground arith
normalize_exec_type-parse_exec_type v oe.ExecType.rejected h = ground arith
normalize_exec_type-parse_exec_type v oe.ExecType.expired h = ground arith

pub parse_ord_status-normalize_ord_status :
    (x : oe.OrdStatus) → parse_ord_status (normalize_ord_status x) ≡ ok x
unfolding parse_ord_status normalize_ord_status
parse_ord_status-normalize_ord_status oe.OrdStatus.new_order = refl
parse_ord_status-normalize_ord_status oe.OrdStatus.partially_filled = refl
parse_ord_status-normalize_ord_status oe.OrdStatus.filled = refl
parse_ord_status-normalize_ord_status oe.OrdStatus.canceled = refl
parse_ord_status-normalize_ord_status oe.OrdStatus.replaced = refl
parse_ord_status-normalize_ord_status oe.OrdStatus.rejected = refl
parse_ord_status-normalize_ord_status oe.OrdStatus.expired = refl

normalize_ord_status-parse_ord_status :
    (v : ℕ) (x : oe.OrdStatus) → parse_ord_status v ≡ ok x → normalize_ord_status x ≡ v
unfolding parse_ord_status normalize_ord_status
normalize_ord_status-parse_ord_status v oe.OrdStatus.new_order h = ground arith
normalize_ord_status-parse_ord_status v oe.OrdStatus.partially_filled h = ground arith
normalize_ord_status-parse_ord_status v oe.OrdStatus.filled h = ground arith
normalize_ord_status-parse_ord_status v oe.OrdStatus.canceled h = ground arith
normalize_ord_status-parse_ord_status v oe.OrdStatus.replaced h = ground arith
normalize_ord_status-parse_ord_status v oe.OrdStatus.rejected h = ground arith
normalize_ord_status-parse_ord_status v oe.OrdStatus.expired h = ground arith

-- The B3 parsers of sides, order types, times in force, execution types and order states accept exactly
-- the value that the venue gives to their result. The parser of reject reasons is not one of them.
pub parse_iff_normalize :
    ((v : ℕ) (x : oe.Side) → (parse_side v ≡ ok x) ↔ (normalize_side x ≡ v))
    × ((v : ℕ) (x : oe.OrdType) → (parse_ord_type v ≡ ok x) ↔ (normalize_ord_type x ≡ v))
    × ((v : ℕ) (x : oe.TimeInForce)
        → (parse_time_in_force v ≡ ok x) ↔ (normalize_time_in_force x ≡ v))
    × ((v : ℕ) (x : oe.ExecType) → (parse_exec_type v ≡ ok x) ↔ (normalize_exec_type x ≡ v))
    × ((v : ℕ) (x : oe.OrdStatus) → (parse_ord_status v ≡ ok x) ↔ (normalize_ord_status x ≡ v))
parse_iff_normalize = (
  λ v x. (
    normalize_side-parse_side v x,
    λ e. subst (λ w. parse_side w ≡ ok x) e (parse_side-normalize_side x),
  ),
  λ v x. (
    normalize_ord_type-parse_ord_type v x,
    λ e. subst (λ w. parse_ord_type w ≡ ok x) e (parse_ord_type-normalize_ord_type x),
  ),
  λ v x. (
    normalize_time_in_force-parse_time_in_force v x,
    λ e.
        subst (λ w. parse_time_in_force w ≡ ok x) e (parse_time_in_force-normalize_time_in_force x),
  ),
  λ v x. (
    normalize_exec_type-parse_exec_type v x,
    λ e. subst (λ w. parse_exec_type w ≡ ok x) e (parse_exec_type-normalize_exec_type x),
  ),
  λ v x. (
    normalize_ord_status-parse_ord_status v x,
    λ e. subst (λ w. parse_ord_status w ≡ ok x) e (parse_ord_status-normalize_ord_status x),
  ),
)

-- The reason that a venue code stands for: unknown symbols share the code of unknown orders.
abbrev pub recovered : oe.RejectReason → oe.RejectReason
recovered oe.RejectReason.unknown_order = oe.RejectReason.unknown_order
recovered oe.RejectReason.duplicate_order = oe.RejectReason.duplicate_order
recovered oe.RejectReason.unknown_symbol = oe.RejectReason.unknown_order
recovered oe.RejectReason.unsupported_request = oe.RejectReason.unsupported_request

-- A reject reason comes back from its venue code as itself, but for an unknown symbol, which comes
-- back as an unknown order.
pub parse_reject_reason-normalize_reject_reason :
    (x : oe.RejectReason) → parse_reject_reason (normalize_reject_reason x) ≡ ok (recovered x)
unfolding parse_reject_reason normalize_reject_reason
parse_reject_reason-normalize_reject_reason oe.RejectReason.unknown_order = refl
parse_reject_reason-normalize_reject_reason oe.RejectReason.duplicate_order = refl
parse_reject_reason-normalize_reject_reason oe.RejectReason.unknown_symbol = refl
parse_reject_reason-normalize_reject_reason oe.RejectReason.unsupported_request = refl

-- A venue code fits the `std::uint16_t` of its field.
pub normalize_reject_reason-lt : (x : oe.RejectReason) → normalize_reject_reason x < 2 ^ 16
unfolding normalize_reject_reason
normalize_reject_reason-lt oe.RejectReason.unknown_order = omega arith
normalize_reject_reason-lt oe.RejectReason.duplicate_order = omega arith
normalize_reject_reason-lt oe.RejectReason.unknown_symbol = omega arith
normalize_reject_reason-lt oe.RejectReason.unsupported_request = omega arith
