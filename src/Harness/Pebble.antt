-- ===== src/Harness/Pebble.antt =====
-- crates/testing/src/lib.rs: the harness that runs a Pebble CA in docker.
pub mod Host
pub mod Tar
pub mod Hosts
pub mod Docker
pub mod Trust
pub mod Directory
pub mod ComposeFile
pub mod Spawn
pub mod Admin
mod Tests
