-- ===== src/Units.antt =====
-- The units (units/utils.hpp, units/pool.cpp): how agents share a range, and a pool of agents.
pub mod Range
pub mod Shares
pub mod Partition
pub mod Pool
pub mod Dispatch
pub mod Once
pub mod Destroyed
pub mod Tests
