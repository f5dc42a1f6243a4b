-- ===== src/Filament.antt =====
-- internal/pkg/filament: the serial frames of the filament changer.
pub mod Framing
mod Tests
