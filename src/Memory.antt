-- ===== src/Memory.antt =====
-- truepresence/memory/: what is remembered of sessions.
pub mod Timeline
pub mod Deque
pub mod History
pub mod IdentityGraph
pub mod Symmetric
pub mod Cluster
pub mod Features
pub mod Risk
pub mod Known
pub mod Scored
pub mod Rated
pub mod Examples
