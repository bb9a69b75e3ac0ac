-- ===== src/MorfixQuickfix.antt =====
-- The morfix_quickfix library: the B3 codecs.
pub mod Fields
pub mod Decode
pub mod Encode
pub mod Codecs
