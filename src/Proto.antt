-- ===== src/Proto.antt =====
-- firmware/usb/flashProto.cxx: the programmer's side of the USB protocol.
pub mod Common
pub mod Paged
pub mod Read
pub mod Write
pub mod Erase
pub mod Target
pub mod Control
