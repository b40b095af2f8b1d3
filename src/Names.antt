-- ===== src/Names.antt =====
-- The names of the groups of the communication system: those of the controllers
-- (libcor/src/cor/services/controller.cpp) and of the mailers (libcor/src/cor/services/mailer.cpp).
pub mod Groups
pub mod RoundTrip
pub mod Tests
