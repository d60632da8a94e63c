-- ===== src/Serial.antt =====
-- src/ltask/serialize.c: Lua values to a chain of byte blocks, and back.
pub mod Bytes
pub mod Blocks
pub mod Value
pub mod Pack
pub mod Unpack
pub mod Format
pub mod Written
pub mod Consumed
pub mod Packed
pub mod Scalars
pub mod Unpacked
pub mod Nested
pub mod RoundTrip
pub mod Reads
pub mod Ends
mod Tests
