-- ===== src/Dns.antt =====
-- internal/dnscache: the cache, and the lookups that concurrent callers share.
pub mod Cache
pub mod Resolver
