-- ===== src/Cli.antt =====
-- cli.rs: the operator's command line, and the choice in main.rs between it and the server.
pub mod Url
pub mod Args
pub mod Report
pub mod Commands
pub mod Run
