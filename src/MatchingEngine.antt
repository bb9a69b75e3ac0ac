-- ===== src/MatchingEngine.antt =====
-- The matching_engine library: books, the matching algorithm and the engine.
pub mod Types
pub mod Outcome
pub mod Book
pub mod Matching
pub mod Engine
