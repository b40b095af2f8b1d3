-- ===== src/Page/Unique.antt =====
-- The identifiers that the pods hand out: the invariant of the cluster and its proof.
pub mod Inv
pub mod Moves
pub mod Steps
