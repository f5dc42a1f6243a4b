-- ===== src/Tmc.antt =====
-- internal/pkg/tmc: the stepper driver chips. `Uart` the frames on their serial line, `Spi` the
-- commands of a chain of chips, `Fields` the fields of their registers.
pub mod Uart
pub mod Spi
pub mod Fields
mod Tests
