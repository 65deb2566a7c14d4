-- ===== src/Klibc.antt =====
-- klibc/string.c: moving and filling memory, and strings.
pub mod Memory
pub mod Move
pub mod Overlap
pub mod Backward
pub mod Fill
pub mod Strings
pub mod Compare
pub mod Tokens
mod Tests
