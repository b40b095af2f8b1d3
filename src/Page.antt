-- ===== src/Page.antt =====
-- The service that hands out resource identifiers, in one pod and over all pods.
pub mod Manager
pub mod Cluster
pub mod Unique
pub mod Starvation
mod Tests
