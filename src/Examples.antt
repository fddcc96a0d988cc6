-- ===== src/Examples.antt =====
-- Test data, and the theorems at concrete inputs: a board with a chip on the external bus.
pub mod Data
pub mod Buffers
pub mod Sessions
pub mod Requests
pub mod Numbers
pub mod Host
pub mod Writes
pub mod Operations
pub mod Fields
pub mod Tables
pub mod Boards
pub mod Lines
