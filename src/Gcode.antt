-- ===== src/Gcode.antt =====
-- internal/pkg/gcode: pausing and resuming a print, and reading lines of G-code.
pub mod PauseResume
pub mod Parse
pub mod Params
pub mod Move
pub mod Dispatch
mod Tests
