-- ===== src/Collective.antt =====
-- The collective creation of a resource in a context
-- (libcor/src/cor/services/controller.cpp, libcor/include/cor/services/controller.tpp): which member
-- is told that it is the first, and what all members get.
pub mod Init
pub mod First
pub mod Creation
pub mod Origin
pub mod Moves
pub mod Steps
pub mod Agree
pub mod Tests
mod Example
