-- ===== src/Msgproto.antt =====
-- internal/pkg/msgproto/msgproto.go: the wire format that the host and a micro-controller share.
-- `Crc` the checksum, `Vlq` the integers of variable length, `Block` the message blocks.
pub mod Crc
pub mod Vlq
pub mod Block
pub mod Param
pub mod Format
mod Tests
