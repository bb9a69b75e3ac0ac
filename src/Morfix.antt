-- ===== src/Morfix.antt =====
-- The morfix library: FIX-shaped order routing.
pub mod Messages
pub mod Conversions
pub mod Session
