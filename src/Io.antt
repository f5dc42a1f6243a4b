-- ===== src/Io.antt =====
-- internal/pkg/io: the digital buttons and the rotary encoder of buttons.go.
pub mod Buttons
pub mod Encoder
mod Tests
