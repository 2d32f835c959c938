-- ===== src/Stream.antt =====
-- The stream layer of src/: senders cut a buffer into packets, receivers put it together again.
pub mod Sender
pub mod Cut
pub mod Join
pub mod Parts
pub mod Receiver
pub mod Accept
mod Tests
