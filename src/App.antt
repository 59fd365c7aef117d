-- ===== src/App.antt =====
-- app and cmd/proxy: the configuration, the server and its command.
pub mod Variables
pub mod Config
pub mod Server
