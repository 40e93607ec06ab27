-- ===== src/Blobs.antt =====
-- blobs.rs: the attachments of a vault. The children are the names that the server takes, the ranges
-- of requests, and the states of the paths.
pub mod Names
pub mod Ranges
pub mod Paths
pub mod Disk
pub mod Svg
pub mod Uploads
pub mod Download
pub mod Traffic
pub mod Intact
