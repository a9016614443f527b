-- ===== src/Proxy.antt =====
-- internal/proxy: a request goes through the pool of its route, seat by seat, until one serves it.
pub mod Models
pub mod Affinity
pub mod Commit
pub mod Engine
pub mod Entry
pub mod Dispatch
pub mod Overflow
pub mod Race
pub mod Upstream
