-- ===== src/HostFile.antt =====
-- The host files of corun: `HostFileParser` (tools/corun/host_file_parser.cpp).
pub mod Line
pub mod File
pub mod Matches
pub mod Parts
pub mod Written
pub mod Accepted
pub mod Lines
pub mod Corun
mod Tests
