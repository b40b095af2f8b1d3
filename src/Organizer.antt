-- ===== src/Organizer.antt =====
-- The groups of resources: `StaticOrganizer` and `DynamicOrganizer` (libcor/src/cor/elements).
pub mod Members
pub mod Static
pub mod Dynamic
pub mod Table
pub mod Lookup
pub mod History
pub mod Joined
pub mod Outcome
pub mod Parent
pub mod Tests
