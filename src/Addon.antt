-- ===== src/Addon.antt =====
-- internal/addon: the exclusion of single objects from a print.
pub mod ExcludeObject
pub mod VirtualSd
mod Tests
