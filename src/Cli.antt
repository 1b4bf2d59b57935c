-- ===== src/Cli.antt =====
-- src/cli/: the commands of the command line.
pub mod Machine
pub mod Pem
pub mod Credentials
pub mod Account
pub mod KeyFiles
pub mod Daemon
pub mod Obtain
pub mod Placeholder
pub mod Renew
pub mod Notices
pub mod Untouched
pub mod Rotated
