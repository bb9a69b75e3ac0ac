-- ===== src/OrderEntry.antt =====
-- The order_entry library: the inbound domain.
pub mod Types
pub mod Messages
pub mod Session
pub mod JsonDecoder
pub mod Runtime
