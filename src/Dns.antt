-- ===== src/Dns.antt =====
-- internal/dns.
pub mod Server
pub mod Resolution
pub mod Messages
pub mod Lifecycle
