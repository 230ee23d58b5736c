-- ===== src/RouterOs.antt =====
-- src/plugins/eztik/routeros: the client side of the RouterOS API protocol.
pub mod Sentence
pub mod Length
pub mod Response
pub mod Hex
pub mod Password
pub mod Api
pub mod Tests
