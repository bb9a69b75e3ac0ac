-- ===== src/MarketData/Messages.antt =====
-- src/market_data/market_data/messages.hpp: reference data, trades and book updates.
use cpp_demo_build.Prelude.{Option}
use cpp_demo_build.MarketData.Types.{
  SecurityId, Symbol, SecurityExchange, SecurityGroup, SecurityType, SecuritySubtype, Price,
  Quantity, OrderId, TradeId, Timestamp, TradeDate, Currency, TradingSessionId, Side, UpdateAction,
  SecurityTradingStatus, SecurityTradingEvent, TradeCondition, TradeSubType,
}

pub record SecurityDefinition : Type 0 where
  pub security_id : SecurityId
  pub symbol : Symbol
  pub security_exchange : SecurityExchange
  pub security_group : SecurityGroup
  pub security_type : SecurityType
  pub security_subtype : Option SecuritySubtype
  pub min_price_increment : Price
  pub round_lot : Quantity
  pub currency : Currency

pub record SecurityStatus : Type 0 where
  pub security_id : SecurityId
  pub security_exchange : SecurityExchange
  pub trading_session_id : TradingSessionId
  pub security_trading_status : SecurityTradingStatus
  pub security_trading_event : SecurityTradingEvent
  pub transact_time : Timestamp

pub record ExecutionSummary : Type 0 where
  pub security_id : SecurityId
  pub aggressor_side : Side
  pub last_px : Price
  pub fill_qty : Quantity
  pub traded_hidden_qty : Option Quantity
  pub cancel_qty : Option Quantity
  pub aggressor_time : Timestamp
  pub transact_time : Timestamp

pub record Trade : Type 0 where
  pub security_id : SecurityId
  pub trade_id : TradeId
  pub price : Price
  pub quantity : Quantity
  pub buyer : Option OrderId
  pub seller : Option OrderId
  pub trade_condition : TradeCondition
  pub trade_sub_type : Option TradeSubType
  pub trade_date : TradeDate
  pub transact_time : Timestamp

pub record MboBookUpdate : Type 0 where
  pub security_id : SecurityId
  pub update_action : UpdateAction
  pub side : Side
  pub resting_order_id : OrderId
  pub price : Option Price
  pub quantity : Option Quantity
  pub previous_quantity : Option Quantity
  pub transact_time : Timestamp

pub data Message : Type 0 where
  security_definition : SecurityDefinition → Message
  security_status : SecurityStatus → Message
  execution_summary : ExecutionSummary → Message
  trade : Trade → Message
  mbo_book_update : MboBookUpdate → Message
