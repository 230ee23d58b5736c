-- ===== src/Net.antt =====
-- src/net: the framed TCP protocol that the server speaks with its clients.
pub mod Message
pub mod Client
pub mod Tests
