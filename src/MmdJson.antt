-- ===== src/MmdJson.antt =====
-- src/mmd_json: normalized market data as JSON.
pub mod JsonEncoder
pub mod Agreement
