-- ===== src/Consistency/Token.antt =====
-- The consistency objects of one resource in all pods, and the token between them.
pub mod Net
pub mod Unique
mod Tests
