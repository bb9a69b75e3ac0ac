-- ===== src/MarketData.antt =====
-- The market_data library: the outbound domain.
pub mod Types
pub mod Messages
pub mod JsonEncoder
