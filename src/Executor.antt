-- ===== src/Executor.antt =====
-- The active resources of the threads of a pod (libcor/src/cor/system/pod.cpp), and the executors
-- that set them (libcor/include/cor/elements/executor.tpp).
pub mod Pod
pub mod Active
pub mod Modules
pub mod Tests
