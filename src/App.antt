-- ===== src/App.antt =====
-- The application: src/app, src/services and src/net's listener.
pub mod Hooks
pub mod Server
pub mod Config
pub mod Services
pub mod Plugins
pub mod Start
pub mod Listener
pub mod Tests
