-- ===== src/Tests.antt =====
-- Runs of the code on concrete values, and instances of the theorems.
pub mod Toy
pub mod Handlers
pub mod Documents
pub mod Auth
pub mod Accounts
pub mod Blobs
pub mod Sockets
pub mod Uploads
pub mod Cli
