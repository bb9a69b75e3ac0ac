-- ===== src/Lab.antt =====
-- The lab library: general utilities.
pub mod Json
pub mod Network
pub mod Charconv
pub mod Algorithm
pub mod FixedString
pub mod ErrorCode
pub mod EventLoop
