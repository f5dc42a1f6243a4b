-- ===== src/Print.antt =====
-- internal/print: what the program notes about a print.
pub mod IdleTimeout
pub mod Stats
mod Tests
