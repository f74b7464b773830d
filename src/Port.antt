-- ===== src/Port.antt =====
-- src/utils/port.c: what does not call the operating system.
pub mod Hex
pub mod Time
pub mod Duration
pub mod Text
