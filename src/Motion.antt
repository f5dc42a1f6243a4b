-- ===== src/Motion.antt =====
-- internal/pkg/motion: `LookAhead` the queue of moves with the speeds at their junctions.
pub mod Move
pub mod LookAhead
pub mod Toolhead
pub mod FlushTimer
pub mod Pause
pub mod Drip
pub mod Queueing
mod Tests
