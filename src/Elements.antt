-- ===== src/Elements.antt =====
-- The elements that pass calls on, over the organizers and the mailer: mailboxes and barriers
-- (libcor/src/cor/elements).
pub mod Mailbox
pub mod Broadcast
pub mod Ranks
mod Tests
