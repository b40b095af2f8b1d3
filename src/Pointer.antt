-- ===== src/Pointer.antt =====
-- `ResourcePtr` (libcor/include/cor/services/resource_ptr.tpp), and the reference counter of the
-- consistency objects that it keeps.
pub mod Ptr
pub mod Counter
pub mod Balance
pub mod Tests
