-- ===== src/Server.antt =====
-- Package server: the host server's handlers over the storage.
pub mod Index
pub mod Pairing
pub mod Mailbox
pub mod Session
pub mod Login
pub mod Escrow
pub mod Timebox
pub mod Sample
