-- ===== src/Mcu.antt =====
-- internal/pkg/mcu: what the host does with a micro-controller. `Trsync` the synchronised trigger of
-- a homing move, `Enable` the motor enable pins, `Connect` the configuration at start-up, `Restart`
-- shutdown and reset.
pub mod Trsync
pub mod Enable
pub mod Connect
pub mod Restart
mod Tests
