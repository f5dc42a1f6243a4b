-- ===== src/Heater.antt =====
-- internal/pkg/heater: the check that a heater heats.
pub mod Verify
mod Tests
