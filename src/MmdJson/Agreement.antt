-- ===== src/MmdJson/Agreement.antt =====
-- The two encoders of market data, src/market_data/src/json_encoder.cpp and
-- src/mmd_json/src/json_encoder.cpp, write the same texts.
use cpp_demo_build.Prelude.{◌≡◌, refl, ap}
use mathlib.Core.Path.{fun_ext}
use cpp_demo_build.Lab.Json.{Json}
use cpp_demo_build.MarketData.Types.{
  Side, UpdateAction, SecurityTradingStatus, SecurityTradingEvent, TradeCondition, TradeSubType,
}
use cpp_demo_build.MarketData.Messages as md
use cpp_demo_build.MarketData.JsonEncoder as md_json
use cpp_demo_build.Mmd.Conversions.{
  to_mmd_message, to_mmd_security_definition, to_mmd_security_status, to_mmd_execution_summary,
  to_mmd_trade, to_mmd_mbo_book_update,
}
use cpp_demo_build.MmdJson.JsonEncoder as mmd_json

encode_side-eq : (x : Side) → mmd_json.encode_side x ≡ md_json.encode_side x
unfolding mmd_json.encode_side md_json.encode_side
encode_side-eq Side.buy = refl
encode_side-eq Side.sell = refl

encode_update_action-eq :
    (x : UpdateAction) → mmd_json.encode_update_action x ≡ md_json.encode_update_action x
unfolding mmd_json.encode_update_action md_json.encode_update_action
encode_update_action-eq UpdateAction.new_order = refl
encode_update_action-eq UpdateAction.change = refl
encode_update_action-eq UpdateAction.delete_order = refl

encode_security_trading_status-eq :
    (x : SecurityTradingStatus)
    → mmd_json.encode_security_trading_status x ≡ md_json.encode_security_trading_status x
unfolding mmd_json.encode_security_trading_status md_json.encode_security_trading_status
encode_security_trading_status-eq SecurityTradingStatus.open_trading = refl
encode_security_trading_status-eq SecurityTradingStatus.closed = refl
encode_security_trading_status-eq SecurityTradingStatus.halted = refl

encode_security_trading_event-eq :
    (x : SecurityTradingEvent)
    → mmd_json.encode_security_trading_event x ≡ md_json.encode_security_trading_event x
unfolding mmd_json.encode_security_trading_event md_json.encode_security_trading_event
encode_security_trading_event-eq SecurityTradingEvent.no_event = refl
encode_security_trading_event-eq SecurityTradingEvent.trading_resume = refl
encode_security_trading_event-eq SecurityTradingEvent.trading_halt = refl

encode_trade_condition-eq :
    (x : TradeCondition) → mmd_json.encode_trade_condition x ≡ md_json.encode_trade_condition x
unfolding mmd_json.encode_trade_condition md_json.encode_trade_condition
encode_trade_condition-eq TradeCondition.regular = refl

encode_trade_sub_type-eq :
    (x : TradeSubType) → mmd_json.encode_trade_sub_type x ≡ md_json.encode_trade_sub_type x
unfolding mmd_json.encode_trade_sub_type md_json.encode_trade_sub_type
encode_trade_sub_type-eq TradeSubType.regular = refl

security_definition_payload-eq :
    (j : Json) (m : md.SecurityDefinition)
    → mmd_json.security_definition_payload j (to_mmd_security_definition m)
      ≡ md_json.security_definition_payload j m
unfolding mmd_json.security_definition_payload md_json.security_definition_payload
    to_mmd_security_definition
security_definition_payload-eq j m = refl

security_status_payload-eq :
    (j : Json) (m : md.SecurityStatus)
    → mmd_json.security_status_payload j (to_mmd_security_status m)
      ≡ md_json.security_status_payload j m
unfolding mmd_json.security_status_payload md_json.security_status_payload to_mmd_security_status
security_status_payload-eq j m = rw (
  encode_security_trading_status-eq m.security_trading_status,
  encode_security_trading_event-eq m.security_trading_event,
)

execution_summary_payload-eq :
    (j : Json) (m : md.ExecutionSummary)
    → mmd_json.execution_summary_payload j (to_mmd_execution_summary m)
      ≡ md_json.execution_summary_payload j m
unfolding mmd_json.execution_summary_payload md_json.execution_summary_payload
    to_mmd_execution_summary
execution_summary_payload-eq j m = rw (encode_side-eq m.aggressor_side)

trade_payload-eq :
    (j : Json) (m : md.Trade)
    → mmd_json.trade_payload j (to_mmd_trade m) ≡ md_json.trade_payload j m
unfolding mmd_json.trade_payload md_json.trade_payload to_mmd_trade
trade_payload-eq j m =
    rw (encode_trade_condition-eq m.trade_condition, fun_ext encode_trade_sub_type-eq)

mbo_book_update_payload-eq :
    (j : Json) (m : md.MboBookUpdate)
    → mmd_json.mbo_book_update_payload j (to_mmd_mbo_book_update m)
      ≡ md_json.mbo_book_update_payload j m
unfolding mmd_json.mbo_book_update_payload md_json.mbo_book_update_payload to_mmd_mbo_book_update
mbo_book_update_payload-eq j m = rw (encode_update_action-eq m.update_action, encode_side-eq m.side)

-- The text of a message of the market-data domain is the text of its normalized message.
pub encode-to_mmd :
    (j : Json) (m : md.Message) → mmd_json.encode j (to_mmd_message m) ≡ md_json.encode j m
unfolding mmd_json.encode mmd_json.payload md_json.encode md_json.payload to_mmd_message
encode-to_mmd j (md.Message.security_definition m) =
    ap (λ p. j.dump (j.object p)) (security_definition_payload-eq j m)
encode-to_mmd j (md.Message.security_status m) =
    ap (λ p. j.dump (j.object p)) (security_status_payload-eq j m)
encode-to_mmd j (md.Message.execution_summary m) =
    ap (λ p. j.dump (j.object p)) (execution_summary_payload-eq j m)
encode-to_mmd j (md.Message.trade m) = ap (λ p. j.dump (j.object p)) (trade_payload-eq j m)
encode-to_mmd j (md.Message.mbo_book_update m) =
    ap (λ p. j.dump (j.object p)) (mbo_book_update_payload-eq j m)
