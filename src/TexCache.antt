-- ===== src/TexCache.antt =====
-- The texture cache of src/texcache.c: the pool of requests, the lists of the least recently used entries, and the
-- caches.
pub mod Pool
pub mod Lru
pub mod Calls
pub mod Requests
pub mod Eviction
mod Tests
