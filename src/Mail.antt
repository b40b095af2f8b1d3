-- ===== src/Mail.antt =====
-- The mailboxes of the resources and the outgoing queue
-- (libcor/src/cor/services/mailer.cpp, libcor/src/cor/message.cpp).
pub mod Mailbox
pub mod Outgoing
pub mod Order
pub mod Fifo
pub mod Held
pub mod Kept
pub mod Queue
pub mod Tests
pub mod Archive
