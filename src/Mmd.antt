-- ===== src/Mmd.antt =====
-- The mmd library: normalized market data.
pub mod Messages
pub mod Conversions
