-- ===== src/Text.antt =====
-- The parts of `std::string` that the program uses, over lists of bytes.
pub mod Bytes
pub mod Decimal
pub mod Filename
