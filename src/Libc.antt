-- ===== src/Libc.antt =====
-- What the sources use of the C library: bounded printing into character arrays, decimal and
-- hexadecimal text, the reading of numbers and tokens, dates.
pub mod Buffer
pub mod Terminated
pub mod Decimal
pub mod Hex
pub mod Time
pub mod Number
pub mod Concat
pub mod Scan
