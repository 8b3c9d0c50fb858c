-- ===== src/Cache.antt =====
-- framework/cache: the backend protocol, its two implementations, and the two components that call
-- it: the interceptor on the read path and the invalidator after a mutation.
pub mod Backend
pub mod Ttl
pub mod Tag
pub mod Key
pub mod Invalidator
pub mod Interceptor
pub mod Coherence
pub mod Memory
pub mod Redis
