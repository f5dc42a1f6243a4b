-- ===== src/Printer.antt =====
-- internal/pkg/printer: the pins of the printer.
pub mod Pins
mod Tests
