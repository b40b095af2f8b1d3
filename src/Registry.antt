-- ===== src/Registry.antt =====
-- The resources that a pod knows: `ResourceManager`
-- (libcor/src/cor/services/resource_manager.cpp, libcor/include/cor/services/resource_manager.tpp)
-- but for the barrier of static groups.
pub mod State
pub mod Allocate
pub mod Deallocate
pub mod Search
pub mod Domain
pub mod History
pub mod Owner
pub mod Entries
pub mod Woken
pub mod Tests
