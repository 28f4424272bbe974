-- ===== src/DnsCache.antt =====
-- src/dns_cache.c: the cache of answers. `Entry` is the life of one entry under its reference
-- count, its place in the cache and its timer; `Table` is the cache as a whole.
pub mod Entry
pub mod Table
mod Runs
