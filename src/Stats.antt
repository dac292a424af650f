-- ===== src/Stats.antt =====
-- src/stats: the counters of the ports, the ring of minute buckets, and the registry of both.
pub mod Port
pub mod Bucket
pub mod Registry
mod Tests
