-- ===== src/MarketData/Types.antt =====
-- src/market_data/market_data/types.hpp: the vocabulary of the market-data domain.
use cpp_demo_build.Prelude.{ℕ, Bytes}

abbrev pub SecurityId : Type 0
SecurityId = ℕ

abbrev pub Symbol : Type 0
Symbol = Bytes

abbrev pub SecurityExchange : Type 0
SecurityExchange = Bytes

abbrev pub SecurityGroup : Type 0
SecurityGroup = Bytes

abbrev pub SecurityType : Type 0
SecurityType = Bytes

abbrev pub SecuritySubtype : Type 0
SecuritySubtype = Bytes

abbrev pub Price : Type 0
Price = ℕ

abbrev pub Quantity : Type 0
Quantity = ℕ

abbrev pub OrderId : Type 0
OrderId = ℕ

abbrev pub TradeId : Type 0
TradeId = ℕ

abbrev pub Timestamp : Type 0
Timestamp = ℕ

abbrev pub TradeDate : Type 0
TradeDate = Bytes

abbrev pub Currency : Type 0
Currency = Bytes

abbrev pub TradingSessionId : Type 0
TradingSessionId = Bytes

pub data Side : Type 0 where
  buy sell : Side

pub data UpdateAction : Type 0 where
  new_order change delete_order : UpdateAction

pub data SecurityTradingStatus : Type 0 where
  open_trading closed halted : SecurityTradingStatus

pub data SecurityTradingEvent : Type 0 where
  no_event trading_resume trading_halt : SecurityTradingEvent

pub data TradeCondition : Type 0 where
  regular : TradeCondition

pub data TradeSubType : Type 0 where
  regular : TradeSubType
