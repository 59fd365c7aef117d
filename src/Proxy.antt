-- ===== src/Proxy.antt =====
-- internal/proxy: the names of cluster hosts and the SOCKS5 proxy.
pub mod Cluster
pub mod Socks5
