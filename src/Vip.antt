-- ===== src/Vip.antt =====
-- internal/vip: virtual addresses and the interface that they are bound to.
pub mod Address
pub mod Interface
pub mod Allocator
pub mod Resolve
