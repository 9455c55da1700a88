-- ===== src/Chat.antt =====
-- The chat server of hw5.
pub mod Users
pub mod Links
pub mod Registry
pub mod Init
pub mod Append
pub mod Register
pub mod Unregister
pub mod Fini
pub mod Twice
pub mod Protocol
pub mod Sending
pub mod Receiving
pub mod Mailbox
pub mod MailQueue
pub mod Deliver
pub mod Stalled
pub mod Clients
pub mod Login
pub mod Slots
pub mod Lockout
pub mod Replies
pub mod Service
mod Tests
mod MailTests
mod ClientTests
mod PacketTests
