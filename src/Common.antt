-- ===== src/Common.antt =====
-- common/: bytes and words, buffers, derivation paths, number formats and base 58.
pub mod Read
pub mod Write
pub mod Varint
pub mod Buffer
pub mod Base58
pub mod Bip44
pub mod Format
