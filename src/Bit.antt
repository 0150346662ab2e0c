-- ===== src/Bit.antt =====
-- src/profibit.c, the library `probit`: operations on the 32 bits of a number, for scripts.
pub mod Sum
pub mod Word
pub mod Print
pub mod Api
pub mod Digits
pub mod Shift
pub mod Rotate
pub mod Range
mod Examples
