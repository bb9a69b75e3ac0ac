-- ===== src/Ospec/B3.antt =====
-- src/ospec/src/b3.cpp: the B3 values of the enumerations. An overload of `normalize` is named after
-- its type; the text of an error is not modelled.
pub mod RoundTrip
use cpp_demo_build.Prelude.{ℕ, ◌==◌, if◌then◌else◌}
use cpp_demo_build.Prelude.Result.{Result, ok, err, invalid_argument}
use cpp_demo_build.OrderEntry.Types as oe
use cpp_demo_build.MarketData.Types as md

unfoldable pub normalize_side : oe.Side → ℕ
normalize_side oe.Side.buy = b'1'
normalize_side oe.Side.sell = b'2'

unfoldable pub normalize_ord_type : oe.OrdType → ℕ
normalize_ord_type oe.OrdType.market = b'1'
normalize_ord_type oe.OrdType.limit = b'2'

unfoldable pub normalize_time_in_force : oe.TimeInForce → ℕ
normalize_time_in_force oe.TimeInForce.day = b'0'
normalize_time_in_force oe.TimeInForce.ioc = b'3'

unfoldable pub normalize_exec_type : oe.ExecType → ℕ
normalize_exec_type oe.ExecType.new_order = b'0'
normalize_exec_type oe.ExecType.replaced = b'5'
normalize_exec_type oe.ExecType.canceled = b'4'
normalize_exec_type oe.ExecType.trade = b'F'
normalize_exec_type oe.ExecType.rejected = b'8'
normalize_exec_type oe.ExecType.expired = b'C'

unfoldable pub normalize_ord_status : oe.OrdStatus → ℕ
normalize_ord_status oe.OrdStatus.new_order = b'0'
normalize_ord_status oe.OrdStatus.partially_filled = b'1'
normalize_ord_status oe.OrdStatus.filled = b'2'
normalize_ord_status oe.OrdStatus.canceled = b'4'
normalize_ord_status oe.OrdStatus.replaced = b'5'
normalize_ord_status oe.OrdStatus.rejected = b'8'
normalize_ord_status oe.OrdStatus.expired = b'C'

unfoldable pub normalize_reject_reason : oe.RejectReason → ℕ
normalize_reject_reason oe.RejectReason.unknown_order = 1
normalize_reject_reason oe.RejectReason.duplicate_order = 6
normalize_reject_reason oe.RejectReason.unknown_symbol = 1
normalize_reject_reason oe.RejectReason.unsupported_request = 99

unfoldable pub parse_side : ℕ → Result oe.Side
parse_side value =
    if value == b'1'
    then ok oe.Side.buy
    else if value == b'2'
    then ok oe.Side.sell
    else err invalid_argument

unfoldable pub parse_ord_type : ℕ → Result oe.OrdType
parse_ord_type value =
    if value == b'1'
    then ok oe.OrdType.market
    else if value == b'2'
    then ok oe.OrdType.limit
    else err invalid_argument

unfoldable pub parse_time_in_force : ℕ → Result oe.TimeInForce
parse_time_in_force value =
    if value == b'0'
    then ok oe.TimeInForce.day
    else if value == b'3'
    then ok oe.TimeInForce.ioc
    else err invalid_argument

unfoldable pub parse_exec_type : ℕ → Result oe.ExecType
parse_exec_type value =
    if value == b'0'
    then ok oe.ExecType.new_order
    else if value == b'5'
    then ok oe.ExecType.replaced
    else if value == b'4'
    then ok oe.ExecType.canceled
    else if value == b'F'
    then ok oe.ExecType.trade
    else if value == b'8'
    then ok oe.ExecType.rejected
    else if value == b'C'
    then ok oe.ExecType.expired
    else err invalid_argument

unfoldable pub parse_ord_status : ℕ → Result oe.OrdStatus
parse_ord_status value =
    if value == b'0'
    then ok oe.OrdStatus.new_order
    else if value == b'1'
    then ok oe.OrdStatus.partially_filled
    else if value == b'2'
    then ok oe.OrdStatus.filled
    else if value == b'4'
    then ok oe.OrdStatus.canceled
    else if value == b'5'
    then ok oe.OrdStatus.replaced
    else if value == b'8'
    then ok oe.OrdStatus.rejected
    else if value == b'C'
    then ok oe.OrdStatus.expired
    else err invalid_argument

unfoldable pub parse_reject_reason : ℕ → Result oe.RejectReason
parse_reject_reason value =
    if value == 1
    then ok oe.RejectReason.unknown_order
    else if value == 6
    then ok oe.RejectReason.duplicate_order
    else if value == 99
    then ok oe.RejectReason.unsupported_request
    else err invalid_argument

pub normalize_market_side : md.Side → ℕ
normalize_market_side md.Side.buy = b'0'
normalize_market_side md.Side.sell = b'1'

pub normalize_update_action : md.UpdateAction → ℕ
normalize_update_action md.UpdateAction.new_order = b'0'
normalize_update_action md.UpdateAction.change = b'1'
normalize_update_action md.UpdateAction.delete_order = b'2'

pub normalize_trade_condition : md.TradeCondition → ℕ
normalize_trade_condition md.TradeCondition.regular = b'0'
