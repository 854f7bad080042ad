-- ===== src/Nanopb.antt =====
-- The Protocol Buffers runtime that the app is built with: FirebaseLogin/Pods/nanopb, as it is
-- compiled there (PB_ENABLE_MALLOC, PB_FIELD_32BIT, 64-bit numbers, error messages kept).
pub mod Istream
pub mod Ostream
pub mod Varint
pub mod Wire
pub mod Field
pub mod Scalar
pub mod Blob
pub mod Memory
pub mod Encode
pub mod Presence
pub mod Message
pub mod Action
pub mod Defaults
pub mod Release
pub mod Decode
mod Tests
