-- ===== src/Thread.antt =====
-- Threads of the library (src/thread/, include/Zway/thread/).
pub mod Handler
