-- ===== src/Server.antt =====
-- src/server: the application that wires the parts into a pipeline of three threads.
pub mod Application
pub mod Pipeline
