-- ===== src/K8s.antt =====
-- internal/k8s: clients by kubeconfig context, the /kubeconfig endpoint, services and forwards.
pub mod Config
pub mod ClientManager
pub mod Resolver
pub mod SpdyPool
pub mod PortForward
pub mod Kubeconfig
pub mod ForwardManager
