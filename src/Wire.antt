-- ===== src/Wire.antt =====
-- The messages between the controllers (libcor/src/cor/services/controller.cpp): what each
-- sender puts on the wire, and which call of a manager each handler makes of it.
pub mod Archive
pub mod Send
pub mod Handle
pub mod Asked
pub mod RoundTrip
pub mod Tests
