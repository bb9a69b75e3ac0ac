-- ===== src/Examples.antt =====
-- Concrete inputs: the theorems applied, and runs of the modelled code.
pub mod Fixtures
pub mod Documents
pub mod Matching
pub mod Engine
pub mod Codecs
pub mod Sessions
pub mod FixedStrings
pub mod Wire
pub mod Pipeline
pub mod Startup
