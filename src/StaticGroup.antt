-- ===== src/StaticGroup.antt =====
-- The barrier of a static group: the part of `ResourceManager`
-- (libcor/src/cor/services/resource_manager.cpp) that counts the members' messages.
pub mod Barrier
pub mod Rounds
pub mod Overtaken
pub mod Lost
pub mod Tests
