-- ===== src/Client/Tests.antt =====
-- The client with a small server, over a JSON library of numbers.
pub mod PlainJson
pub mod Sessions
pub mod Entering
