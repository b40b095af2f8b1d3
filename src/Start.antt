-- ===== src/Start.antt =====
-- The start and the end of the controllers (libcor/src/cor/services/controller.cpp).
pub mod Pods
pub mod Counts
pub mod Posted
pub mod Moved
pub mod Missing
pub mod Together
pub mod Barrier
pub mod Spawn
pub mod Tests
