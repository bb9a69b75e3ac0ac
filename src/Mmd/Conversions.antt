-- ===== src/Mmd/Conversions.antt =====
-- src/mmd/src/conversions.cpp: market data to normalized market data and back, one function per overload.
pub mod RoundTrip
use cpp_demo_build.MarketData.Messages as md
use cpp_demo_build.Mmd.Messages as mmd

unfoldable pub to_mmd_security_definition : md.SecurityDefinition → mmd.SecurityDefinition
to_mmd_security_definition message = record {
  security_id = message.security_id;
  symbol = message.symbol;
  security_exchange = message.security_exchange;
  security_group = message.security_group;
  security_type = message.security_type;
  security_subtype = message.security_subtype;
  min_price_increment = message.min_price_increment;
  round_lot = message.round_lot;
  currency = message.currency;
}

unfoldable pub to_mmd_security_status : md.SecurityStatus → mmd.SecurityStatus
to_mmd_security_status message = record {
  security_id = message.security_id;
  security_exchange = message.security_exchange;
  trading_session_id = message.trading_session_id;
  security_trading_status = message.security_trading_status;
  security_trading_event = message.security_trading_event;
  transact_time = message.transact_time;
}

unfoldable pub to_mmd_execution_summary : md.ExecutionSummary → mmd.ExecutionSummary
to_mmd_execution_summary message = record {
  security_id = message.security_id;
  aggressor_side = message.aggressor_side;
  last_px = message.last_px;
  fill_qty = message.fill_qty;
  traded_hidden_qty = message.traded_hidden_qty;
  cancel_qty = message.cancel_qty;
  aggressor_time = message.aggressor_time;
  transact_time = message.transact_time;
}

unfoldable pub to_mmd_trade : md.Trade → mmd.Trade
to_mmd_trade message = record {
  security_id = message.security_id;
  trade_id = message.trade_id;
  price = message.price;
  quantity = message.quantity;
  buyer = message.buyer;
  seller = message.seller;
  trade_condition = message.trade_condition;
  trade_sub_type = message.trade_sub_type;
  trade_date = message.trade_date;
  transact_time = message.transact_time;
}

unfoldable pub to_mmd_mbo_book_update : md.MboBookUpdate → mmd.MboBookUpdate
to_mmd_mbo_book_update message = record {
  security_id = message.security_id;
  update_action = message.update_action;
  side = message.side;
  resting_order_id = message.resting_order_id;
  price = message.price;
  quantity = message.quantity;
  previous_quantity = message.previous_quantity;
  transact_time = message.transact_time;
}

unfoldable pub to_mmd_message : md.Message → mmd.Message
unfolding to_mmd_security_definition to_mmd_security_status to_mmd_execution_summary to_mmd_trade
    to_mmd_mbo_book_update
to_mmd_message (md.Message.security_definition event) =
    mmd.Message.security_definition (to_mmd_security_definition event)
to_mmd_message (md.Message.security_status event) =
    mmd.Message.security_status (to_mmd_security_status event)
to_mmd_message (md.Message.execution_summary event) =
    mmd.Message.execution_summary (to_mmd_execution_summary event)
to_mmd_message (md.Message.trade event) = mmd.Message.trade (to_mmd_trade event)
to_mmd_message (md.Message.mbo_book_update event) =
    mmd.Message.mbo_book_update (to_mmd_mbo_book_update event)

unfoldable pub to_market_data_security_definition : mmd.SecurityDefinition → md.SecurityDefinition
to_market_data_security_definition message = record {
  security_id = message.security_id;
  symbol = message.symbol;
  security_exchange = message.security_exchange;
  security_group = message.security_group;
  security_type = message.security_type;
  security_subtype = message.security_subtype;
  min_price_increment = message.min_price_increment;
  round_lot = message.round_lot;
  currency = message.currency;
}

unfoldable pub to_market_data_security_status : mmd.SecurityStatus → md.SecurityStatus
to_market_data_security_status message = record {
  security_id = message.security_id;
  security_exchange = message.security_exchange;
  trading_session_id = message.trading_session_id;
  security_trading_status = message.security_trading_status;
  security_trading_event = message.security_trading_event;
  transact_time = message.transact_time;
}

unfoldable pub to_market_data_execution_summary : mmd.ExecutionSummary → md.ExecutionSummary
to_market_data_execution_summary message = record {
  security_id = message.security_id;
  aggressor_side = message.aggressor_side;
  last_px = message.last_px;
  fill_qty = message.fill_qty;
  traded_hidden_qty = message.traded_hidden_qty;
  cancel_qty = message.cancel_qty;
  aggressor_time = message.aggressor_time;
  transact_time = message.transact_time;
}

unfoldable pub to_market_data_trade : mmd.Trade → md.Trade
to_market_data_trade message = record {
  security_id = message.security_id;
  trade_id = message.trade_id;
  price = message.price;
  quantity = message.quantity;
  buyer = message.buyer;
  seller = message.seller;
  trade_condition = message.trade_condition;
  trade_sub_type = message.trade_sub_type;
  trade_date = message.trade_date;
  transact_time = message.transact_time;
}

unfoldable pub to_market_data_mbo_book_update : mmd.MboBookUpdate → md.MboBookUpdate
to_market_data_mbo_book_update message = record {
  security_id = message.security_id;
  update_action = message.update_action;
  side = message.side;
  resting_order_id = message.resting_order_id;
  price = message.price;
  quantity = message.quantity;
  previous_quantity = message.previous_quantity;
  transact_time = message.transact_time;
}

unfoldable pub to_market_data_message : mmd.Message → md.Message
unfolding to_market_data_security_definition to_market_data_security_status
    to_market_data_execution_summary to_market_data_trade to_market_data_mbo_book_update
to_market_data_message (mmd.Message.security_definition event) =
    md.Message.security_definition (to_market_data_security_definition event)
to_market_data_message (mmd.Message.security_status event) =
    md.Message.security_status (to_market_data_security_status event)
to_market_data_message (mmd.Message.execution_summary event) =
    md.Message.execution_summary (to_market_data_execution_summary event)
to_market_data_message (mmd.Message.trade event) = md.Message.trade (to_market_data_trade event)
to_market_data_message (mmd.Message.mbo_book_update event) =
    md.Message.mbo_book_update (to_market_data_mbo_book_update event)
