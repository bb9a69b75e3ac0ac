-- ===== src/Mor.antt =====
-- The mor library: normalized order routing.
pub mod Messages
pub mod Conversions
