-- ===== src/QuickfixFix.antt =====
-- The quickfix_fix library: the local FIX message boundary.
pub mod Message
pub mod Codec
pub mod Session
