-- ===== src/Consistency.antt =====
-- The consistency object of a resource: readers, writers, replicas and the write token.
pub mod Object
pub mod Requests
pub mod Threads
pub mod Counts
pub mod Exclusion
pub mod Writers
pub mod Forgotten
pub mod Order
pub mod Service
mod Tests
pub mod Token
