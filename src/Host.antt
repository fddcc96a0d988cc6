-- ===== src/Host.antt =====
-- The host's program: software/ and the host's half of common/include/usbProtocol.hxx.
pub mod Requests
pub mod Targeted
pub mod Replies
pub mod Understood
pub mod Units
pub mod Options
pub mod EndToEnd
pub mod Session
pub mod Balance
pub mod Chips
pub mod Erasing
pub mod Reading
pub mod Writing
pub mod Sfdp
pub mod Opcodes
pub mod Returns
pub mod Listed
pub mod Granted
pub mod Released
pub mod Answers
pub mod Erased
pub mod Memory
pub mod Written
pub mod Programmed
pub mod WriteBack
pub mod Flashed
pub mod Copies
pub mod Dumped
pub mod Program
pub mod Progress
pub mod Handles
