-- ===== src/Envelope.antt =====
-- The library of libs/envelope: base64, compression, encryption, signatures, and the envelope
-- that puts them together.
pub mod Base64
pub mod Libraries
pub mod Layers
pub mod Unlayer
pub mod Config
pub mod Wrap
pub mod Unwrap
pub mod Forgery
mod Tests
