-- ===== src/Firmware.antt =====
-- The firmware around its protocol handlers: start-up, the USB descriptors and the boards' pins.
pub mod Startup
pub mod Descriptors
