-- ===== src/MmdJson/JsonEncoder.antt =====
-- src/mmd_json/src/json_encoder.cpp: normalized market data as JSON texts.
use cpp_demo_build.Prelude.{List, [], ◌∷◌, Bytes, codes}
use cpp_demo_build.Lab.Json.{Json, of_optional}
use cpp_demo_build.MarketData.Types.{
  Side, UpdateAction, new_order, change, delete_order, SecurityTradingStatus, open_trading, closed,
  halted, SecurityTradingEvent, no_event, trading_resume, trading_halt, TradeCondition,
  TradeSubType,
}
use cpp_demo_build.Mmd.Messages.{
  SecurityDefinition, SecurityStatus, ExecutionSummary, Trade, MboBookUpdate, Message,
}

unfoldable pub encode_side : Side → Bytes
encode_side Side.buy = codes "buy"
encode_side Side.sell = codes "sell"

unfoldable pub encode_update_action : UpdateAction → Bytes
encode_update_action new_order = codes "new_order"
encode_update_action change = codes "change"
encode_update_action delete_order = codes "delete_order"

unfoldable pub encode_security_trading_status : SecurityTradingStatus → Bytes
encode_security_trading_status open_trading = codes "open"
encode_security_trading_status closed = codes "closed"
encode_security_trading_status halted = codes "halted"

unfoldable pub encode_security_trading_event : SecurityTradingEvent → Bytes
encode_security_trading_event no_event = codes "none"
encode_security_trading_event trading_resume = codes "trading_resume"
encode_security_trading_event trading_halt = codes "trading_halt"

unfoldable pub encode_trade_condition : TradeCondition → Bytes
encode_trade_condition TradeCondition.regular = codes "regular"

unfoldable pub encode_trade_sub_type : TradeSubType → Bytes
encode_trade_sub_type TradeSubType.regular = codes "regular"

module _ (j : Json) where
  -- The payloads of the messages, before `dump`.
  unfoldable pub security_definition_payload : SecurityDefinition → List (Bytes × j.Value)
  unfolding of_optional
  security_definition_payload msg =
      (codes "message_type", j.of_string (codes "security_definition"))
      ∷ (codes "security_id", j.of_number msg.security_id)
      ∷ (codes "symbol", j.of_string msg.symbol)
      ∷ (codes "security_exchange", j.of_string msg.security_exchange)
      ∷ (codes "security_group", j.of_string msg.security_group)
      ∷ (codes "security_type", j.of_string msg.security_type)
      ∷ (codes "security_subtype", of_optional j j.of_string msg.security_subtype)
      ∷ (codes "min_price_increment", j.of_number msg.min_price_increment)
      ∷ (codes "round_lot", j.of_number msg.round_lot)
      ∷ (codes "currency", j.of_string msg.currency)
      ∷ []

  unfoldable pub security_status_payload : SecurityStatus → List (Bytes × j.Value)
  unfolding of_optional
  security_status_payload msg =
      (codes "message_type", j.of_string (codes "security_status"))
      ∷ (codes "security_id", j.of_number msg.security_id)
      ∷ (codes "security_exchange", j.of_string msg.security_exchange)
      ∷ (codes "trading_session_id", j.of_string msg.trading_session_id)
      ∷ (
        codes "security_trading_status",
        j.of_string (encode_security_trading_status msg.security_trading_status),
      )
      ∷ (
        codes "security_trading_event",
        j.of_string (encode_security_trading_event msg.security_trading_event),
      )
      ∷ (codes "transact_time", j.of_number msg.transact_time)
      ∷ []

  unfoldable pub execution_summary_payload : ExecutionSummary → List (Bytes × j.Value)
  unfolding of_optional
  execution_summary_payload msg =
      (codes "message_type", j.of_string (codes "execution_summary"))
      ∷ (codes "security_id", j.of_number msg.security_id)
      ∷ (codes "aggressor_side", j.of_string (encode_side msg.aggressor_side))
      ∷ (codes "last_px", j.of_number msg.last_px)
      ∷ (codes "fill_qty", j.of_number msg.fill_qty)
      ∷ (codes "traded_hidden_qty", of_optional j j.of_number msg.traded_hidden_qty)
      ∷ (codes "cancel_qty", of_optional j j.of_number msg.cancel_qty)
      ∷ (codes "aggressor_time", j.of_number msg.aggressor_time)
      ∷ (codes "transact_time", j.of_number msg.transact_time)
      ∷ []

  unfoldable pub trade_payload : Trade → List (Bytes × j.Value)
  unfolding of_optional
  trade_payload msg =
      (codes "message_type", j.of_string (codes "trade"))
      ∷ (codes "security_id", j.of_number msg.security_id)
      ∷ (codes "trade_id", j.of_number msg.trade_id)
      ∷ (codes "price", j.of_number msg.price)
      ∷ (codes "quantity", j.of_number msg.quantity)
      ∷ (codes "buyer", of_optional j j.of_number msg.buyer)
      ∷ (codes "seller", of_optional j j.of_number msg.seller)
      ∷ (codes "trade_condition", j.of_string (encode_trade_condition msg.trade_condition))
      ∷ (
        codes "trade_sub_type",
        of_optional j (λ sub. j.of_string (encode_trade_sub_type sub)) msg.trade_sub_type,
      )
      ∷ (codes "trade_date", j.of_string msg.trade_date)
      ∷ (codes "transact_time", j.of_number msg.transact_time)
      ∷ []

  unfoldable pub mbo_book_update_payload : MboBookUpdate → List (Bytes × j.Value)
  unfolding of_optional
  mbo_book_update_payload msg =
      (codes "message_type", j.of_string (codes "mbo_book_update"))
      ∷ (codes "security_id", j.of_number msg.security_id)
      ∷ (codes "update_action", j.of_string (encode_update_action msg.update_action))
      ∷ (codes "side", j.of_string (encode_side msg.side))
      ∷ (codes "resting_order_id", j.of_number msg.resting_order_id)
      ∷ (codes "price", of_optional j j.of_number msg.price)
      ∷ (codes "quantity", of_optional j j.of_number msg.quantity)
      ∷ (codes "previous_quantity", of_optional j j.of_number msg.previous_quantity)
      ∷ (codes "transact_time", j.of_number msg.transact_time)
      ∷ []

  unfoldable pub payload : Message → List (Bytes × j.Value)
  payload (Message.security_definition msg) = security_definition_payload msg
  payload (Message.security_status msg) = security_status_payload msg
  payload (Message.execution_summary msg) = execution_summary_payload msg
  payload (Message.trade msg) = trade_payload msg
  payload (Message.mbo_book_update msg) = mbo_book_update_payload msg

  unfoldable pub encode : Message → Bytes
  encode message = j.dump (j.object (payload message))
