-- ===== src/Context.antt =====
-- context/
pub mod Learning
pub mod Analysis
