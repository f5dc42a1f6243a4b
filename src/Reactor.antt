-- ===== src/Reactor.antt =====
-- internal/pkg/reactor/reactor.go: the timers of the event loop and its mutex. Times are whole
-- microseconds: the code compares them, takes the smaller one, and subtracts once.
pub mod Timers
pub mod Mutex
mod Tests
