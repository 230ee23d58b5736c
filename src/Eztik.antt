-- ===== src/Eztik.antt =====
-- src/plugins/eztik without its protocol: what the plugin does for the server's clients.
pub mod Error
pub mod Data
pub mod Sessions
pub mod Commands
pub mod Plugin
pub mod Tests
