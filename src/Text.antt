-- ===== src/Text.antt =====
-- libs/string.c: strings, memory and `strtol`; and the number printing, hash and random numbers of libs/.
pub mod Arch
pub mod Defs
pub mod Move
pub mod Scan
pub mod Numbers
pub mod Digits
pub mod RoundTrip
pub mod Bounds
mod Tests
mod NumberTests
