-- ===== src/Std.antt =====
-- The parts of Rust's standard library that the program's own logic goes through.
pub mod Decimal
pub mod Net
pub mod Split
