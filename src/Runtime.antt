-- ===== src/Runtime.antt =====
-- truepresence/runtime/distributed.py: the session store, on Redis or in the process's memory.
pub mod Redis
pub mod Store
pub mod Sessions
pub mod InMemory
pub mod Fallback
pub mod OnRedis
pub mod Connected
pub mod Faults
pub mod Examples
