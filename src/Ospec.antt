-- ===== src/Ospec.antt =====
-- The ospec library: venue tags and values.
pub mod Fields
pub mod B3
