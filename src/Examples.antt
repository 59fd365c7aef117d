-- ===== src/Examples.antt =====
-- The theorems at concrete inputs.
mod Allocation
mod Hosts
mod Configs
mod Services
mod Forwards
mod Queries
mod Pool
mod Conns
mod Lifetimes
mod Messages
mod Apps
