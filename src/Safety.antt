-- ===== src/Safety.antt =====
-- Chip selects across the whole firmware: from any state in which the pins agree with the code's
-- idea of the selected chip, no handler ever has two chips selected, at any moment.
pub mod Parts
pub mod Handlers
pub mod Writing
pub mod Control
pub mod Reach
